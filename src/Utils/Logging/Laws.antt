-- ===== src/Utils/Logging/Laws.antt =====
-- What a caller of `get` is given.
use hhctrl_mgmt.Base.{
  ◌≡◌, ◌⊎◌, refl, none, some, [], ◌∷◌, String, arith, if◌then◌else◌, str_eq, Option-cases, inl, inr,
}
use hhctrl_mgmt.Base.Outcome.{done}
use hhctrl_mgmt.Utils.Logging.{null_sink, Logger, Spdlog, IsSpdlog, get}

-- The logger that a name leads to: its own, or the null logger.
abbrev pub Serves : (S : Spdlog) → String → S.Registry → Logger → Type 0
Serves S name r l = elim (S.get name r) [
  | some own ↦ l ≡ own
  | none ↦ S.get "null_logger" r ≡ some l
]

module _ (S : Spdlog) (W : IsSpdlog S) where
  open W use {create_free}

  -- Over spdlog as it is documented: `get` returns a logger for every name. It is the logger of that
  -- name if there is one, and else the null logger. Nothing changes, or there was no logger of either
  -- name, and a null logger with the null sink alone has been added and no other. The same call then
  -- gives the same logger and changes nothing.
  get_lem :
      (name : String) (r : S.Registry)
      → (l : Logger) × (r' : S.Registry) × (get S name r ≡ done (l, r'))
        × Serves S name r' l
        × ((r' ≡ r)
            ⊎ ((S.get name r ≡ none)
                × (S.get "null_logger" r ≡ none)
                × (l.sinks ≡ null_sink ∷ [])
                × ((n : String)
                    → S.get n r' ≡ (if str_eq n "null_logger" then some l else S.get n r))))
        × (get S name r' ≡ done (l, r'))
  unfolding get
  get_lem name r = elim (Option-cases (S.get name r)) [
    | inr (own, e) ↦ (own, r, ground (arith, e), ground (arith, e), inl refl, ground (arith, e))
    | inl missing ↦ elim (Option-cases (S.get "null_logger" r)) [
      | inr (other, e) ↦ (
        other,
        r,
        ground (arith, missing, e),
        ground (arith, missing, e),
        inl refl,
        ground (arith, missing, e),
      )
      | inl none_yet ↦
          let (l, r', made, named, sinks, found) = create_free null_sink "null_logger" r none_yet in
          (
            l,
            r',
            ground (arith, missing, none_yet, made),
            ground (arith, missing, found name, found "null_logger"),
            inr (missing, none_yet, sinks, found),
            ground (arith, missing, found name, found "null_logger"),
          )
    ]
  ]
