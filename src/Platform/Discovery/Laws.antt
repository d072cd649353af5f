-- ===== src/Platform/Discovery/Laws.antt =====
-- What `setup` makes of a description of the platform, entry by entry.
use hhctrl_mgmt.Base.{
  append_assoc, append-nil, ℕ, ◌≡◌, refl, ap, ◌∙◌, Bool, true, false, Option, none, some, List, [],
  ◌∷◌, ◌++◌, String, str_eq, if◌then◌else◌, All, find_if,
}
use hhctrl_mgmt.Base.Outcome.{Outcome, done, thrown, after}
use hhctrl_mgmt.Platform.Pdtree.{
  text, array, object, PdTreeArray, end_array, item, PdTreeObject, member, find_member,
  pdtree_to_string, pdtree_get,
}
use hhctrl_mgmt.Platform.Builder.{PlatformBuilder, add_device, add_loader}
use hhctrl_mgmt.Platform.Providers.{Provider, compatible, load_generic, load_rgb_indicator}
use hhctrl_mgmt.Platform.Discovery.{providers, provider_load, setup_entry, setup_entries, setup}
use hhctrl_mgmt.Platform.Discovery.Entries.{
  GenericType, hatch2sr, ds18b20, cpu_temp_sensor, Entry, generic, rgb, describe_entry, describe,
  indicators_of, loaders_of, has_leds, with_entries, Reads,
}
use hhctrl_mgmt.Platform.Discovery.Leds.{load_red, load_green, load_blue}

indicators_of-∷ :
    (e : Entry) (es : List Entry)
    → indicators_of (e ∷ []) ++ indicators_of es ≡ indicators_of (e ∷ es)
indicators_of-∷ (generic t model path) es = refl
indicators_of-∷ (rgb (some r) (some g) (some b)) es = refl
indicators_of-∷ (rgb none g b) es = refl
indicators_of-∷ (rgb (some r) none b) es = refl
indicators_of-∷ (rgb (some r) (some g) none) es = refl

loaders_of-∷ :
    (e : Entry) (es : List Entry) → loaders_of (e ∷ []) ++ loaders_of es ≡ loaders_of (e ∷ es)
loaders_of-∷ (generic t model none) es = refl
loaders_of-∷ (generic t model (some path)) es = refl
loaders_of-∷ (rgb r g b) es = refl

not_found :
    (name : String) (ps : List Provider)
    → All (λ p. str_eq (compatible p) name ≡ false) ps
    → find_if (λ p. str_eq (compatible p) name) ps ≡ none
not_found name [] h = refl
not_found name (p ∷ ps) h = simp (h.0) (not_found name ps h.1)

module _ (extract : String → Option String) (led_at : String → Option ℕ)
    (null_call : PlatformBuilder → Outcome (Bool × PlatformBuilder)) where
  -- What is read of the entry's paths is so, and an RGB LED has its three LEDs.
  abbrev pub IsReadable : Entry → Type 0
  IsReadable (generic t model path) = Reads extract path
  IsReadable (rgb red green blue) =
      (has_leds red green blue ≡ true) × Reads led_at red × Reads led_at green × Reads led_at blue

  setup_entry-generic :
      (t : GenericType) (model : String) (path : Option (String × String)) (b : PlatformBuilder)
      → Reads extract path
      → setup_entry extract led_at null_call (describe_entry (generic t model path)) b
        ≡ done (with_entries ((generic t model path) ∷ []) b)
  unfolding setup_entry provider_load load_generic find_member pdtree_to_string pdtree_get
      add_loader
  setup_entry-generic hatch2sr model none b reads = simp (append-nil) refl
  setup_entry-generic ds18b20 model none b reads = simp (append-nil) refl
  setup_entry-generic cpu_temp_sensor model none b reads = simp (append-nil) refl
  setup_entry-generic hatch2sr model (some path) b reads = simp (reads, append-nil) refl
  setup_entry-generic ds18b20 model (some path) b reads = simp (reads, append-nil) refl
  setup_entry-generic cpu_temp_sensor model (some path) b reads = simp (reads, append-nil) refl

  -- Where what is read of its paths is so, the entry of an RGB LED gives the builder its four indicators if
  -- it has its three LEDs; if one is missing, what comes of `setup` is what comes of a call through the
  -- logger "hw", which does not exist.
  pub setup_entry-rgb :
      (red green blue : Option (String × ℕ)) (b : PlatformBuilder)
      → Reads led_at red
      → Reads led_at green
      → Reads led_at blue
      → setup_entry extract led_at null_call (describe_entry (rgb red green blue)) b ≡ (
          if has_leds red green blue
          then done (with_entries ((rgb red green blue) ∷ []) b)
          else after (null_call b) (λ r. done r.1))
  unfolding setup_entry provider_load load_rgb_indicator find_member pdtree_to_string add_device
  setup_entry-rgb (some red) (some green) (some blue) b r g l =
      simp
        (
          load_rgb_indicator,
          load_red led_at (some red) (some green) (some blue) r,
          load_green led_at (some red) (some green) (some blue) g,
          load_blue led_at (some red) (some green) (some blue) l,
          append-nil,
          append_assoc,
        )
        refl
  setup_entry-rgb red green blue b r g l =
      simp
        (
          load_rgb_indicator,
          load_red led_at red green blue r,
          load_green led_at red green blue g,
          load_blue led_at red green blue l,
        )
        refl

  setup_entry-readable :
      (e : Entry) (b : PlatformBuilder)
      → IsReadable e
      → setup_entry extract led_at null_call (describe_entry e) b ≡ done (with_entries (e ∷ []) b)
  setup_entry-readable (generic t model path) b h = setup_entry-generic t model path b h
  setup_entry-readable (rgb red green blue) b h =
      setup_entry-rgb red green blue b h.1 h.2 h.3 ∙ simp (h.0) refl

  setup_entries-describe :
      (es : List Entry) (rest : PdTreeArray) (b : PlatformBuilder)
      → All IsReadable es
      → setup_entries extract led_at null_call (describe es rest) b
        ≡ setup_entries extract led_at null_call rest (with_entries es b)
  unfolding setup_entries
  setup_entries-describe [] rest b h = simp (append-nil) refl
  setup_entries-describe (e ∷ es) rest b h =
      simp
        (
          setup_entries,
          setup_entry-readable e b h.0,
          setup_entries-describe es rest (with_entries (e ∷ []) b) h.1,
          append_assoc,
          indicators_of-∷ e es,
          loaders_of-∷ e es,
        )
        refl

  -- On a description whose entries are readable, `setup` gives the builder the loaders of the generic
  -- devices that have a path and the four indicators of each RGB LED, in the order of the entries; a
  -- generic device without a path is left out without an error.
  pub setup-describe :
      (es : List Entry) (b : PlatformBuilder)
      → All IsReadable es
      → setup extract led_at null_call (array (describe es end_array)) b ≡ done (with_entries es b)
  unfolding setup setup_entries
  setup-describe es b h = setup_entries-describe es end_array b h

  -- An entry whose `compatible` is none of the four makes `setup` throw, whatever readable entries are
  -- before it.
  setup-unknown :
      (es : List Entry) (name : String) (others : PdTreeObject) (rest : PdTreeArray)
      (b : PlatformBuilder)
      → All IsReadable es
      → All (λ p. str_eq (compatible p) name ≡ false) providers
      → setup extract led_at null_call
          (array (describe es (item (object (member "compatible" (text name) others)) rest)))
          b
        ≡ thrown
  unfolding setup setup_entries setup_entry find_member pdtree_to_string
  setup-unknown es name others rest b h u =
      setup_entries-describe es _ b h
      ∙ ap
          (λ (found : Option Provider).
            after
              (elim found [
                | none ↦ thrown
                | some provider ↦
                    after
                      (provider_load extract led_at null_call provider
                        (member "compatible" (text name) others) (with_entries es b))
                      (λ r. done r.1)
              ])
              (setup_entries extract led_at null_call rest))
          (not_found name providers u)
