-- ===== src/Examples/Platforms.antt =====
-- A description of a platform, its devices, and what the kernel and the files give, as concrete inputs.
use hhctrl_mgmt.Base.{
  ℕ, ◌≡◌, refl, Bool, true, Option, none, some, List, [], ◌∷◌, String, str_eq, if◌then◌else◌, ◌==◌,
}
use hhctrl_mgmt.Base.Outcome.{Outcome, done, thrown}
use hhctrl_mgmt.Board.{rgb_indicators}
use hhctrl_mgmt.Board.Hardware.{hardware_identity, hardware_identity_model}
use hhctrl_mgmt.Platform.Pdtree.{array, end_array}
use hhctrl_mgmt.Platform.Builder.{
  PlatformBuilder, empty_builder, hatch_loader, cpu_temp_sensor_loader,
}
use hhctrl_mgmt.Platform.Discovery.{setup, setup_entry}
use hhctrl_mgmt.Platform.Discovery.Entries.{
  Entry, generic, rgb, hatch2sr, ds18b20, cpu_temp_sensor, describe, describe_entry,
}
use hhctrl_mgmt.Platform.Discovery.Laws.{setup-describe, setup_entry-rgb}

abbrev pub word_of : String → Option String
word_of word = some word

abbrev pub led_at : String → Option ℕ
led_at path = some (if str_eq path "/red" then 0 else if str_eq path "/green" then 1 else 2)

abbrev pub no_logger : PlatformBuilder → Outcome (Bool × PlatformBuilder)
no_logger b = thrown

abbrev pub entries : List Entry
entries =
    rgb (some ("/red", 0)) (some ("/green", 1)) (some ("/blue", 2))
    ∷ generic hatch2sr "hatch" (some ("/hatch", "/hatch"))
    ∷ generic ds18b20 "sensor" none
    ∷ generic cpu_temp_sensor "cpu" (some ("/cpu", "/cpu"))
    ∷ []

-- A hatch, and no RGB LED.
abbrev pub dark_entries : List Entry
dark_entries = generic hatch2sr "hatch" (some ("/hatch", "/hatch")) ∷ []

setup-describe_example :
    setup word_of led_at no_logger (array (describe entries end_array)) empty_builder
    ≡ done (record {
      indicators = rgb_indicators 0 1 2;
      generic_loaders = hatch_loader "/hatch" ∷ cpu_temp_sensor_loader "/cpu" ∷ [];
    })
setup-describe_example =
    setup-describe word_of led_at no_logger entries empty_builder
      ((refl, refl, refl, refl), (refl, (tt, (refl, tt))))

setup_entry-rgb_example :
    setup_entry word_of led_at no_logger
      (describe_entry (rgb (some ("/red", 0)) none (some ("/blue", 2))))
      empty_builder
    ≡ thrown
setup_entry-rgb_example =
    setup_entry-rgb word_of led_at no_logger (some ("/red", 0)) none (some ("/blue", 2))
      empty_builder refl tt refl

abbrev byte_text : List ℕ → String
byte_text bytes = elim bytes [ [] ↦ "" | b ∷ bs ↦ if b == 255 then "?" else "B" ]

abbrev hw_files : String → Option (List ℕ)
hw_files path = some (66 ∷ 10 ∷ 67 ∷ [])

hardware_identity_model_example : (hardware_identity byte_text hw_files).model ≡ "B"
hardware_identity_model_example =
    hardware_identity_model byte_text hw_files (66 ∷ []) (67 ∷ []) true (refl, tt) refl
