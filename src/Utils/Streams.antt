-- ===== src/Utils/Streams.antt =====
-- A file read through an `std::ifstream` into a `boost::json::stream_parser`, as `pdtree_load` of
-- src/main_board/pdtree.cpp and `load_config` of src/app/app_config.cpp do: in blocks of 4096 bytes.
-- The parser is a parameter.
pub mod Laws
use hhctrl_mgmt.Base.{
  ℕ, zero, suc, ◌+◌, ◌*◌, ◌≤◌, ◌<◌, ◌≡◌, refl, sym, ap, Bool, true, false, Option, none, some, List,
  [], ◌∷◌, ◌++◌, arith, ltb, if◌then◌else◌, length, drop, Bool-cases, inl, inr,
}
use hhctrl_mgmt.Base.Outcome.{Outcome, done, thrown, stuck}

-- The bytes that were not read yet. A file that could not be opened has `failbit` set from the start.
pub record Stream : Type 0 where
  pub is_open : Bool
  pub rest : List ℕ
  pub eof : Bool

-- `none` is a file that cannot be opened.
abbrev pub open_file : Option (List ℕ) → Stream
open_file none = record { is_open = false; rest = []; eof = false }
open_file (some bytes) = record { is_open = true; rest = bytes; eof = false }

abbrev pub take : ℕ → List ℕ → List ℕ
take zero xs = []
take (suc n) [] = []
take (suc n) (x ∷ xs) = x ∷ take n xs

-- `file.read`, with the `gcount` bytes that it gives: `eofbit` is set where there are fewer than asked
-- for, and a stream that has failed is left as it is.
unfoldable pub read : ℕ → Stream → List ℕ × Stream
read size file =
    if file.is_open
    then (
      take size file.rest,
      record { is_open = true; rest = drop size file.rest; eof = ltb (length file.rest) size },
    )
    else ([], file)

-- `write` and `finish` also give whether `error_code` is set.
pub record StreamParser (V : Type 0) : Type 1 where
  pub State : Type 0
  pub fresh : State
  pub write : List ℕ → State → State × Bool
  pub finish : State → State × Bool
  pub release : State → V

-- Text may come in any blocks, an empty one too; after an error the parser stays in it.
pub record IsIncremental {V : Type 0} (P : StreamParser V) : Type 0 where
  pub append : (xs ys : List ℕ) (s : P.State) → P.write ys (P.write xs s).0 ≡ P.write (xs ++ ys) s

module _ {V : Type 0} (P : StreamParser V) where
  -- The `do` loop, with blocks of this size, and the last `error_code`.
  unfoldable pub read_loop : ℕ → ℕ → Stream → P.State → Outcome (P.State × Bool)
  unfolding read
  read_loop zero size file parser = stuck
  read_loop (suc fuel) size file parser =
      let (buffer, file') = read size file in
      let written = P.write buffer parser in
      let rest = read_loop fuel size file' written.0 in if file'.eof then done written else rest

  abbrev finished : P.State × Bool → Outcome (Option V)
  finished (parser, true) = done none
  finished (parser, false) =
      (let r = P.finish parser in if r.1 then done none else done (some (P.release r.0)))

  -- The parsed value, or `none` where `error_code` was set at the end of the loop or by `finish`.
  unfoldable pub read_json : ℕ → Stream → Outcome (Option V)
  unfolding read_loop
  read_json fuel file = elim (read_loop fuel 4096 file P.fresh) [
    | done r ↦ finished r
    | thrown ↦ thrown
    | stuck ↦ stuck
  ]

  -- What the parser makes of a whole text.
  unfoldable pub parse : List ℕ → Outcome (Option V)
  parse bytes = finished (P.write bytes P.fresh)
