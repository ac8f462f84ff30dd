-- ===== src/Plumber.antt =====
-- src/plumber.rs: content rules in order of priority. Regular expressions and the display of a JSON
-- value are those of other packages: an interface.
pub mod Order
pub mod Routes
use xfiles.Prelude.{
  ◌≡◌, Bool, true, false, ◌&&◌, Option, none, some, List, [], ◌∷◌, ◌++◌, map, is_empty,
  if◌then◌else◌, ◌==◌, Text, text_eq, codes, Map,
}
use xfiles.Prelude.Maps.{get}
use xfiles.Prelude.Ints.{ℤ, ltb_ℤ}
use xfiles.Message.{Opaque, Message}

-- `Regex::new`, which may refuse a pattern, `is_match`, and `Value`'s `Display`.
pub record Patterns (x : Opaque) : Type 1 where
  pub Regex : Type 0
  pub compile : Text → Option Regex
  pub is_match : Regex → Text → Bool
  pub display : x.Value → Text

-- src/config.rs: a rule as the configuration file states it.
pub record ConfigRule : Type 0 where
  pub name : Text
  pub pattern : Text
  pub destination : Text
  pub priority : ℤ
  pub header_match : Option (Map Text Text)

-- `/proc/log`
abbrev pub proc_log : Text
proc_log = codes "/proc/log"

module _ {x : Opaque} (re : Patterns x) where
  open re use {Regex, compile, is_match, display}

  pub record PlumberRule : Type 0 where
    pub name : Text
    pub pattern : Regex
    pub destination : Text
    pub priority : ℤ
    pub header_match : Option (Map Text Text)

  pub record Plumber : Type 0 where
    pub rules : List PlumberRule

  unfoldable pub new : Plumber
  new = record { rules = [] }

  -- `sort_by_key` by the reversed priority, a stable sort: a rule goes before those that follow it in
  -- the list and have no higher priority.
  unfoldable pub insert_rule : PlumberRule → List PlumberRule → List PlumberRule
  insert_rule r [] = r ∷ []
  insert_rule r (s ∷ rules) =
      if ltb_ℤ r.priority s.priority then s ∷ insert_rule r rules else r ∷ s ∷ rules

  unfoldable pub sort_rules : List PlumberRule → List PlumberRule
  sort_rules [] = []
  sort_rules (r ∷ rules) = insert_rule r (sort_rules rules)

  -- `none` is the error of `Regex::new`.
  unfoldable pub add_rule :
      Plumber → Text → Text → Text → ℤ → Option (Map Text Text) → Option Plumber
  add_rule p name pattern destination priority header_match = elim (compile pattern) [
    | none ↦ none
    | some regex ↦ some (record {
      rules = sort_rules (
          p.rules
          ++ record {
            name = name;
            pattern = regex;
            destination = destination;
            priority = priority;
            header_match = header_match;
          }
            ∷ []);
    })
  ]

  unfoldable pub haystack : Message x → Text
  haystack msg =
      codes "type:"
      ++ msg.msg_type
      ++ codes " sender:"
      ++ msg.sender
      ++ codes " path:"
      ++ msg.path
      ++ codes " data:"
      ++ display msg.payload

  -- The loop over the header constraints.
  unfoldable pub headers_match : Map Text Text → Map Text Text → Bool
  headers_match headers [] = true
  headers_match headers ((key, value) ∷ constraints) = elim (get headers key) [
    | none ↦ false
    | some header_value ↦ if header_value == value then headers_match headers constraints else false
  ]

  unfoldable pub matches : PlumberRule → Message x → Bool
  unfolding haystack headers_match
  matches rule msg =
      if is_match rule.pattern (haystack msg)
      then elim rule.header_match [ none ↦ true | some headers ↦ headers_match msg.headers headers ]
      else false

  -- The loop of `route`, with the destinations pushed so far.
  unfoldable pub push_matching : Message x → List PlumberRule → List Text → List Text
  push_matching msg [] destinations = destinations
  push_matching msg (rule ∷ rules) destinations =
      push_matching msg rules
        (if matches rule msg then destinations ++ rule.destination ∷ [] else destinations)

  unfoldable pub route : Plumber → Message x → List Text
  unfolding push_matching
  route p msg =
      let destinations = push_matching msg p.rules [] in
      if is_empty destinations then proc_log ∷ [] else destinations

  -- The rules are added one by one up to the first bad pattern; the flag is false where there is one.
  unfoldable pub load_from_config : Plumber → List ConfigRule → Plumber × Bool
  load_from_config p [] = (p, true)
  load_from_config p (r ∷ rs) =
      elim (add_rule p r.name r.pattern r.destination r.priority r.header_match) [
        | none ↦ (p, false)
        | some p' ↦ load_from_config p' rs
      ]

  unfoldable pub list_rules : Plumber → List (Text × Text × ℤ)
  list_rules p = map (λ r. (r.name, r.destination, r.priority)) p.rules
