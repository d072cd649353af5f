-- ===== src/Utils/Streams/Laws.antt =====
-- Reading in blocks makes no difference, and an unopened file is read for ever.
use hhctrl_mgmt.Base.{
  ℕ, zero, suc, ◌+◌, ◌*◌, ◌<◌, ◌≡◌, refl, ap, false, none, some, List, [], ◌∷◌, ◌++◌, arith, ltb,
  length, drop, Bool-cases, inl, inr,
}
use hhctrl_mgmt.Base.Outcome.{done, stuck}
use hhctrl_mgmt.Utils.Streams.{
  open_file, take, read, StreamParser, IsIncremental, read_loop, read_json, parse,
}

take-drop : (n : ℕ) (xs : List ℕ) → take n xs ++ drop n xs ≡ xs
take-drop zero xs = refl
take-drop (suc n) [] = refl
take-drop (suc n) (x ∷ xs) = ap (λ ys. x ∷ ys) (take-drop n xs)

take-all : (n : ℕ) (xs : List ℕ) → length xs < n → take n xs ≡ xs
take-all zero xs h = absurd (omega (arith, h))
take-all (suc n) [] h = refl
take-all (suc n) (x ∷ xs) h = ap (λ ys. x ∷ ys) (take-all n xs (omega (arith, h)))

length-drop : (n : ℕ) (xs : List ℕ) → ltb (length xs) n ≡ false → length (drop n xs) + n ≡ length xs
length-drop zero xs h = omega arith
length-drop (suc n) [] h = ground (arith, h)
length-drop (suc n) (x ∷ xs) h = omega (arith, length-drop n xs (ground (arith, h)))

module _ {V : Type 0} (P : StreamParser V) (incremental : IsIncremental P) where
  read_loop-whole :
      (fuel size : ℕ) (xs : List ℕ) (parser : P.State)
      → length xs < fuel * size
      → read_loop P fuel size (open_file (some xs)) parser ≡ done (P.write xs parser)
  unfolding read_loop read
  read_loop-whole zero size xs parser h = absurd (omega (arith, h))
  read_loop-whole (suc fuel) size xs parser h = elim (Bool-cases (ltb (length xs) size)) [
    | inl short ↦ simp (read_loop, short, take-all size xs (ground (arith, short))) refl
    | inr long ↦
        let shorter : (length (drop size xs) < fuel * size) =
          ground (arith, length-drop size xs long, h) in
        simp
          (
            read_loop,
            long,
            read_loop-whole fuel size (drop size xs) (P.write (take size xs) parser).0 shorter,
            incremental.append (take size xs) (drop size xs) parser,
            take-drop size xs,
          )
          refl
  ]

  -- A file of fewer bytes than 4096 for each unit of fuel is read in blocks with the result of
  -- parsing its text at once.
  pub read_json-parse :
      (fuel : ℕ) (bytes : List ℕ)
      → length bytes < fuel * 4096
      → read_json P fuel (open_file (some bytes)) ≡ parse P bytes
  unfolding read_json parse
  read_json-parse fuel bytes h =
      simp (read_json, parse, read_loop-whole fuel 4096 bytes P.fresh h) refl

read_loop-unopened :
    {V : Type 0} (P : StreamParser V) (fuel size : ℕ) (parser : P.State)
    → read_loop P fuel size (open_file none) parser ≡ stuck
unfolding read_loop read
read_loop-unopened P zero size parser = refl
read_loop-unopened P (suc fuel) size parser = read_loop-unopened P fuel size (P.write [] parser).0

-- The loop never ends on a file that cannot be opened: no amount of fuel is enough, since `eofbit` is
-- never set.
pub read_json-unopened :
    {V : Type 0} (P : StreamParser V) (fuel : ℕ) → read_json P fuel (open_file none) ≡ stuck
unfolding read_json
read_json-unopened P fuel = simp (read_json, read_loop-unopened P fuel 4096 P.fresh) refl
