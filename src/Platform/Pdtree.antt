-- ===== src/Platform/Pdtree.antt =====
-- pdtree.hpp and pdtree.cpp: the description of the platform, a JSON value. A value that is no
-- text, no number of 0, 1, 2 and so on, no array and no object is `other`. A name stands once in an object. No text holds a NUL,
-- where `c_str` would cut it.
use hhctrl_mgmt.Base.{ℕ, Bool, not, Option, none, some, String, str_eq, if◌then◌else◌, is_some}
use hhctrl_mgmt.Utils.Streams.{Stream, StreamParser, read_json}
use hhctrl_mgmt.Base.Outcome.{Outcome, done, thrown, after}

mutual
  pub data PdTreeValue : Type 0 where
    text : String → PdTreeValue
    number : ℕ → PdTreeValue
    array : PdTreeArray → PdTreeValue
    object : PdTreeObject → PdTreeValue
    other : PdTreeValue

  pub data PdTreeArray : Type 0 where
    end_array : PdTreeArray
    item : PdTreeValue → PdTreeArray → PdTreeArray

  pub data PdTreeObject : Type 0 where
    end_object : PdTreeObject
    member : String → PdTreeValue → PdTreeObject → PdTreeObject

unfoldable pub find_member : String → PdTreeObject → Option PdTreeValue
find_member key end_object = none
find_member key (member name val rest) =
    let later = find_member key rest in if str_eq name key then some val else later

-- `object.at`.
abbrev pub at : String → PdTreeObject → Outcome PdTreeValue
at key o = elim (find_member key o) [ none ↦ thrown | some val ↦ done val ]

abbrev pub contains : String → PdTreeObject → Bool
contains key o = is_some (find_member key o)

abbrev pub as_array : PdTreeValue → Outcome PdTreeArray
as_array (array xs) = done xs
as_array _ = thrown

abbrev pub as_object : PdTreeValue → Outcome PdTreeObject
as_object (object o) = done o
as_object _ = thrown

unfoldable pub pdtree_to_string : PdTreeValue → Outcome String
pdtree_to_string (text s) = done s
pdtree_to_string (number n) = thrown
pdtree_to_string (array xs) = thrown
pdtree_to_string (object o) = thrown
pdtree_to_string other = thrown

-- `pdtree_get<std::string>`. `extract` is what `iss >> ret` reads of a text, its first word, and `none`
-- where it fails.
unfoldable pub pdtree_get : (String → Option String) → PdTreeObject → String → Outcome String
unfolding pdtree_to_string
pdtree_get extract o key =
    if not (contains key o)
    then thrown
    else after (at key o) λ val.
      after (pdtree_to_string val) λ s. elim (extract s) [ none ↦ thrown | some ret ↦ done ret ]

-- A parse error gives `nullptr`, which is no array. `file.bad()` is not set for a file that could not be
-- opened, so that the read loop is entered.
unfoldable pub pdtree_load : StreamParser PdTreeValue → ℕ → Stream → Outcome PdTreeValue
unfolding read_json
pdtree_load P fuel file =
    after (read_json P fuel file) λ val. elim val [ none ↦ done other | some v ↦ done v ]
