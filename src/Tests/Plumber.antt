-- ===== src/Tests/Plumber.antt =====
-- src/plumber.rs on a few rules.
use xfiles.Prelude.{
  ◌≡◌, ◌⊎◌, refl, true, false, none, some, List, [], ◌∷◌, ◌++◌, All, In, first, text_eq, codes,
}
use xfiles.Prelude.Texts.{text_beq, starts_with}
use xfiles.Prelude.Maps.{get}
use xfiles.Prelude.Ints.{pos, ltb_ℤ, ℤ}
use xfiles.Plumber.{
  ConfigRule, PlumberRule, Plumber, new, add_rule, sort_rules, insert_rule, matches, proc_log,
  route, load_from_config,
}
use xfiles.Plumber.Order.{IsSorted, of_priority, compile_all, all_compile, load_from_config_lem}
use xfiles.Plumber.Routes.{matching, route-first}
use xfiles.Tests.Samples.{prefixes, sample}

abbrev to_ai : ConfigRule
to_ai = record {
  name = codes "ai";
  pattern = codes "type:llm";
  destination = codes "ep-a";
  priority = pos 1;
  header_match = none;
}

abbrev to_prod : ConfigRule
to_prod = record {
  name = codes "prod";
  pattern = codes "type:";
  destination = codes "ep-b";
  priority = pos 5;
  header_match = some ((codes "env", codes "prod") ∷ []);
}

abbrev config : List ConfigRule
config = to_ai ∷ to_prod ∷ []

loaded : (load_from_config prefixes (new prefixes) config).1 ≡ true
unfolding load_from_config add_rule new
loaded = refl

routes :
    route prefixes (load_from_config prefixes (new prefixes) config).0 sample
    ≡ codes "ep-b" ∷ codes "ep-a" ∷ []
unfolding load_from_config add_rule sort_rules insert_rule new route matches starts_with get
    text_beq
routes = refl

load_from_config_lem_example :
    let (q, done) = load_from_config prefixes (new prefixes) config in
    (done ≡ all_compile prefixes config)
    × IsSorted prefixes q.rules
    × ((k : ℤ)
        → of_priority prefixes k q.rules
          ≡ of_priority prefixes k [] ++ of_priority prefixes k (compile_all prefixes config))
unfolding new
load_from_config_lem_example = load_from_config_lem prefixes (new prefixes) config tt

abbrev rule : PlumberRule prefixes
rule = record {
  name = codes "ai";
  pattern = codes "type:llm";
  destination = codes "ep-a";
  priority = pos 1;
  header_match = none;
}

abbrev plumber : Plumber prefixes
plumber = record { rules = rule ∷ [] }

route-first_example :
    (All (λ r. matches prefixes r sample ≡ false) plumber.rules
      × (route prefixes plumber sample ≡ proc_log ∷ []))
    ⊎ ((r : PlumberRule prefixes) × In r plumber.rules
        × (matches prefixes r sample ≡ true)
        × (first (route prefixes plumber sample) ≡ some r.destination)
        × All (λ s. ltb_ℤ r.priority s.priority ≡ false) (matching prefixes sample plumber.rules))
route-first_example = route-first prefixes plumber sample (tt, tt)
