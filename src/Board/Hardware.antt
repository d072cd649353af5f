-- ===== src/Board/Hardware.antt =====
-- `hardware_identity` and `restart` of src/main_board/main_board.cpp.
use Prim.Native.String.{◌++◌}
use hhctrl_mgmt.Base.{
  ℕ, ◌≡◌, refl, ap, Bool, true, false, ◌||◌, Option, none, some, List, [], ◌∷◌, ◌++◌ as append,
  String, ◌==◌, if◌then◌else◌, All,
}
use hhctrl_mgmt.Base.Outcome.{M, ◌>>◌, modify}

pub record HardwareIdentity : Type 0 where
  pub manufacturer : String
  pub model : String
  pub serial_number : String
  pub revision : String

abbrev pub is_end : ℕ → Bool
is_end val = val == 10 || val == 0

-- The loop of `get_hw_info_attr` over the bytes that are left: at the end of the file `file.get()` gives
-- -1, which as a `char` is the byte 255, before `file.eof()` holds.
unfoldable pub read_hw_attr : List ℕ → List ℕ
read_hw_attr [] = 255 ∷ []
read_hw_attr (val ∷ later) = let rest = val ∷ read_hw_attr later in if is_end val then [] else rest

-- `none` is a file that cannot be opened; `text_of` is the string of these bytes.
unfoldable pub get_hw_info_attr : (List ℕ → String) → String → Option (List ℕ) → String
unfolding read_hw_attr
get_hw_info_attr text_of path none = "default-" ++ path
get_hw_info_attr text_of path (some bytes) = text_of (read_hw_attr bytes)

-- `files` are the contents by path.
unfoldable pub hardware_identity : (List ℕ → String) → (String → Option (List ℕ)) → HardwareIdentity
unfolding get_hw_info_attr
hardware_identity text_of files = record {
  manufacturer = "BHome";
  model = get_hw_info_attr text_of "/etc/hw-name" (files "/etc/hw-name");
  revision = "R1";
  serial_number = get_hw_info_attr text_of "/etc/hw-serial" (files "/etc/hw-serial");
}

-- What the board asks of the kernel.
pub data SystemCall : Type 0 where
  sync reboot : SystemCall

abbrev call : SystemCall → M (List SystemCall) (Unit {0})
call c = modify (λ calls. append calls (c ∷ []))

-- A `reboot` that fails is only logged.
unfoldable pub restart : M (List SystemCall) (Unit {0})
restart = do call sync; call reboot

read_hw_attr-line :
    (line rest : List ℕ)
    → All (λ c. is_end c ≡ false) line
    → read_hw_attr (append line (10 ∷ rest)) ≡ line
unfolding read_hw_attr
read_hw_attr-line [] rest h = refl
read_hw_attr-line (c ∷ cs) rest h =
    simp (read_hw_attr, h.0) (ap (λ l. c ∷ l) (read_hw_attr-line cs rest h.1))

read_hw_attr-unended :
    (line : List ℕ) → All (λ c. is_end c ≡ false) line → read_hw_attr line ≡ append line (255 ∷ [])
unfolding read_hw_attr
read_hw_attr-unended [] h = refl
read_hw_attr-unended (c ∷ cs) h =
    simp (read_hw_attr, h.0) (ap (λ l. c ∷ l) (read_hw_attr-unended cs h.1))

-- Of a first line without a NUL: where a newline ends it, the board's model is that line; where the file
-- ends instead, it has one more byte, 255.
pub hardware_identity_model :
    (text_of : List ℕ → String) (files : String → Option (List ℕ)) (line rest : List ℕ)
    (ended : Bool)
    → All (λ c. is_end c ≡ false) line
    → files "/etc/hw-name" ≡ some (if ended then append line (10 ∷ rest) else line)
    → (hardware_identity text_of files).model
      ≡ text_of (if ended then line else append line (255 ∷ []))
unfolding hardware_identity get_hw_info_attr
hardware_identity_model text_of files line rest true h e =
    simp (get_hw_info_attr, e, read_hw_attr-line line rest h) refl
hardware_identity_model text_of files line rest false h e =
    simp (get_hw_info_attr, e, read_hw_attr-unended line h) refl
