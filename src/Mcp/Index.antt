-- ===== src/Mcp/Index.antt =====
-- src/mcp.rs: what the index of tools holds.
use xfiles.Prelude.{
  ◌≡◌, refl, ◌∙◌, Bool, false, ◌||◌, Option, none, some, List, [], ◌∷◌, arith, if◌then◌else◌, ◌==◌,
  eq_iff, Text, text_eq, Map, ◌⊎◌, inl, inr, Bool-cases, Option-cases,
}
use xfiles.Prelude.Maps.{get as get_entry, insert, contains_key, get-insert, contains_key-get}
use xfiles.Message.{Opaque}
use xfiles.Mcp.{
  McpTool, McpManifest, McpClient, McpRegistry, discover_tools, index_tools, index_clients,
  discover_and_index, find_endpoint_for_tool,
}

abbrev pub or_then : Option Text → Option Text → Option Text
or_then none o = o
or_then (some a) o = some a

Sum-cases : {A B : Type 0} (d : A ⊎ B) → ((a : A) × (d ≡ inl a)) ⊎ ((b : B) × (d ≡ inr b))
Sum-cases (inl a) = inl (a, refl)
Sum-cases (inr b) = inr (b, refl)

module _ {x : Opaque} where
  -- Whether a tool of that name is among the tools.
  abbrev pub offers : Text → List (McpTool x) → Bool
  offers name [] = false
  offers name (tool ∷ tools) = (tool.name == name) || offers name tools

  abbrev pub offered : Text → Text ⊎ List (McpTool x) → Bool
  offered name (inl error) = false
  offered name (inr tools) = offers name tools

  module _ (fetch : Text → Text ⊎ McpManifest x) where
    -- The first endpoint, in the order of the table, whose discovery succeeds and gives the tool.
    abbrev pub first_provider : Map Text (McpClient x) → Text → Option Text
    first_provider [] name = none
    first_provider ((id, client) ∷ clients) name =
        let rest = first_provider clients name in
        if offered name (discover_tools fetch client) then some id else rest

    get-index_tools :
        (id : Text) (tools : List (McpTool x)) (index : Map Text Text) (name : Text)
        → get_entry (index_tools fetch id tools index) name
          ≡ or_then (get_entry index name) (if offers name tools then some id else none)
    unfolding index_tools
    get-index_tools id [] index name = elim (Option-cases (get_entry index name)) [
      | inl e ↦ rw e refl
      | inr (a, e) ↦ rw e refl
    ]
    get-index_tools id (tool ∷ tools) index name =
        elim (Bool-cases (contains_key index tool.name)) [
          | inl e ↦ rw e (
              get-index_tools id tools index name
              ∙ ground (arith, e, contains_key-get index tool.name, eq_iff tool.name name))
          | inr e ↦ rw e (
              get-index_tools id tools (insert index tool.name id) name
              ∙ ground (
                arith,
                e,
                contains_key-get index tool.name,
                get-insert index tool.name name id,
                eq_iff tool.name name,
              ))
        ]

    get-index_clients :
        (clients : Map Text (McpClient x)) (index : Map Text Text) (name : Text)
        → get_entry (index_clients fetch clients index) name
          ≡ or_then (get_entry index name) (first_provider clients name)
    unfolding index_clients
    get-index_clients [] index name = elim (Option-cases (get_entry index name)) [
      | inl e ↦ rw e refl
      | inr (a, e) ↦ rw e refl
    ]
    get-index_clients ((id, client) ∷ clients) index name =
        elim (Sum-cases (discover_tools fetch client)) [
          | inl (error, e) ↦ rw (e, index_clients) (get-index_clients clients index name)
          | inr (tools, e) ↦
              rw (e, index_clients)
                (get-index_clients clients (index_tools fetch id tools index) name
                  ∙ ground (arith, get-index_tools id tools index name))
        ]

    -- After `discover_and_index` a tool is found at the first endpoint of the table whose discovery
    -- succeeds and gives it, and nowhere where none does, whatever the index held before.
    pub find_endpoint_for_tool-discover_and_index :
        (r : McpRegistry x) (name : Text)
        → find_endpoint_for_tool (discover_and_index fetch r) name ≡ first_provider r.clients name
    unfolding find_endpoint_for_tool discover_and_index get_entry
    find_endpoint_for_tool-discover_and_index r name = get-index_clients r.clients [] name
