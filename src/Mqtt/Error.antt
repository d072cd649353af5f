-- ===== src/Mqtt/Error.antt =====
-- src/home_assistant_v2/include/home_assistant/mqtt/error.hpp, expected.hpp and error.cpp.
use hhctrl_mgmt.Base.{ℕ, ◌≡◌, false, Option, [], ◌∷◌, ◌==◌, String, if◌then◌else◌, All, arith}
use hhctrl_mgmt.Base.Outcome.{Outcome, done, thrown, after}

pub data ErrorCode : Type 0 where
  timeout no_service connection_refused unknown_packet qos_not_supported disconnected reconnected :
      ErrorCode
  invalid_config publish_failure subscription_failure : ErrorCode

-- The enumerators count from 1.
abbrev pub enumerator : ErrorCode → ℕ
enumerator timeout = 1
enumerator no_service = 2
enumerator connection_refused = 3
enumerator unknown_packet = 4
enumerator qos_not_supported = 5
enumerator disconnected = 6
enumerator reconnected = 7
enumerator invalid_config = 8
enumerator publish_failure = 9
enumerator subscription_failure = 10

-- `ErrorCategory::message`, on the value of a code of this category.
unfoldable pub message : ℕ → String
message value =
    if value == 1
    then "timeout"
    else if value == 2
    then "no_service"
    else if value == 3
    then "connection_refused"
    else if value == 4
    then "unknown_packet"
    else if value == 5
    then "qos_not_supported"
    else if value == 7
    then "reconnected"
    else if value == 6
    then "disconnected"
    else if value == 8
    then "invalid_config"
    else if value == 9
    then "publish_failure"
    else if value == 10
    then "subscription_failure"
    else "unrecognized_error"

-- A code of this category (`make_error_code`), or the value of one of another category.
pub data Code : Type 0 where
  mqtt : ErrorCode → Code
  system : ℕ → Code

-- `value()` of the `boost::system::error_code` that an error holds. A code of this category is a
-- `std::error_code` within it, and `wrapped` is the value that boost::system makes of its own.
abbrev pub value_of : (ℕ → ℕ) → Code → ℕ
value_of wrapped (mqtt c) = wrapped (enumerator c)
value_of wrapped (system n) = n

-- `Error{code, what}`; the default-constructed `Error{}`, which tests as false, is `none` below.
pub record Fault : Type 0 where
  pub code : Code
  pub what : String

abbrev pub Error : Type 0
Error = Option Fault

-- `tl::expected<T, Error>`.
pub data Expected (A : Type 0) : Type 0 where
  value : A → Expected A
  unexpected : Fault → Expected A

abbrev pub fault : ErrorCode → String → Fault
fault c what = record { code = mqtt c; what = what }

-- The values that `boost::system::errc` gives on Linux.
abbrev pub timed_out : ℕ
timed_out = 110

abbrev pub network_unreachable : ℕ
network_unreachable = 101

abbrev pub no_such_file_or_directory : ℕ
no_such_file_or_directory = 2

abbrev pub refused : ℕ
refused = 111

unfoldable pub map_error_code : ℕ → Outcome ErrorCode
map_error_code v =
    if v == timed_out
    then done timeout
    else if v == network_unreachable
    then done no_service
    else if v == no_such_file_or_directory
    then done no_service
    else if v == refused
    then done connection_refused
    else thrown

-- None of these values is one that `map_error_code` maps.
abbrev pub AreUnmapped : (ℕ → ℕ) → Type 0
AreUnmapped wrapped =
    (v : ℕ)
    → All (λ n. (wrapped v == n) ≡ false)
        (timed_out ∷ network_unreachable ∷ no_such_file_or_directory ∷ refused ∷ [])

-- Where wrapped codes are not mapped, mapping a value twice throws.
pub map_error_code_twice :
    {A : Type 0} (wrapped : ℕ → ℕ) (n : ℕ) (what : ErrorCode → Outcome A)
    → AreUnmapped wrapped
    → after (map_error_code n) (λ c. after (map_error_code (wrapped (enumerator c))) what) ≡ thrown
unfolding map_error_code
map_error_code_twice wrapped n what u = ground (arith, u 1, u 2, u 3)
