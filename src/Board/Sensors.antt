-- ===== src/Board/Sensors.antt =====
-- The temperature sensors: src/main_board/sysfs_ds18b20.cpp, sysfs_cpu_temp_sensor.cpp, the type of
-- src/device/include/device/temp_sensor_t.hpp that holds either, and `read_attr`
-- of src/common/utils/include/utils/sysfs.hpp.
use hhctrl_mgmt.Base.{◌≡◌, refl, Option, none, some, List, [], ◌∷◌, ◌++◌, String}
use hhctrl_mgmt.Base.Outcome.{Outcome, done, thrown, after}

-- The loop of `read_attr`: each `>>` puts the next word into `ret`, and one that finds none leaves it.
unfoldable pub read_words : String → List String → String
read_words ret [] = ret
read_words ret (word ∷ words) = read_words word words

-- The words of the attribute's file, `none` where it cannot be opened.
unfoldable pub read_attr : Option (List String) → Outcome String
unfolding read_words
read_attr none = thrown
read_attr (some words) = done (read_words "" words)

-- `TempSensor_t` of src/device/include/device/temp_sensor_t.hpp: a sensor of either type, with the words of
-- its attribute.
pub data TempSensor : Type 0 where
  ds18b20 : (w1_slave : Option (List String)) → TempSensor
  cpu_temp_sensor : (temp : Option (List String)) → TempSensor

-- `stof` and the division by 1000 are parameters, as is the text behind the first "t=", where there is one.
module _ {V : Type 0} (stof : String → Outcome V) (per_mille : V → V) (zero : V)
    (behind : String → Option String) where
  -- `SysfsDS18B20::value`.
  unfoldable pub ds18b20_value : Option (List String) → Outcome V
  unfolding read_attr
  ds18b20_value w1_slave = after (read_attr w1_slave) λ attr_val. elim (behind attr_val) [
    | none ↦ done zero
    | some digits ↦ after (stof digits) λ v. done (per_mille v)
  ]

  -- `SysfsCPUTempSensor::value`.
  unfoldable pub cpu_temp_value : Option (List String) → Outcome V
  unfolding read_attr
  cpu_temp_value temp =
      after (read_attr temp) λ attr_val. after (stof attr_val) λ v. done (per_mille v)

  -- `TempSensorProxy::value`.
  unfoldable pub sensor_value : TempSensor → Outcome V
  unfolding ds18b20_value cpu_temp_value
  sensor_value (ds18b20 w1_slave) = ds18b20_value w1_slave
  sensor_value (cpu_temp_sensor temp) = cpu_temp_value temp

  read_words-last :
      (front : List String) (ret word : String) → read_words ret (front ++ (word ∷ [])) ≡ word
  unfolding read_words
  read_words-last [] ret word = refl
  read_words-last (x ∷ front) ret word = read_words-last front x word

  -- The temperature of a DS18B20 is read from the last word of its attribute, whatever the words before
  -- it are: the number behind its "t=" over 1000, or zero where it has none.
  pub ds18b20_value-last :
      (front : List String) (word : String)
      → ds18b20_value (some (front ++ (word ∷ []))) ≡ (elim (behind word) [
        | none ↦ done zero
        | some digits ↦ after (stof digits) λ v. done (per_mille v)
      ])
  unfolding ds18b20_value read_attr
  ds18b20_value-last front word =
      simp (ds18b20_value, read_attr, read_words-last front "" word) refl
