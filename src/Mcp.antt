-- ===== src/Mcp.antt =====
-- src/mcp.rs: the clients of tool servers and the index of their tools. The requests over HTTP and the
-- JSON library are parameters.
pub mod Index
use xfiles.Prelude.{
  ℕ, Bool, true, false, not, Option, none, some, List, [], ◌∷◌, ◌++◌, if◌then◌else◌, ◌==◌, Text,
  text_eq, codes, Map, ◌⊎◌, inl, inr,
}
use xfiles.Prelude.Maps.{get as get_entry, insert, contains_key}
use xfiles.Prelude.Texts.{trim_end_slashes}
use xfiles.Message.{Opaque, Message}
use xfiles.Ai.Endpoints.{AiEndpoint}

-- `Value::get`, `Value::as_str`, and the JSON null, which is the default value.
pub record Json (x : Opaque) : Type 0 where
  pub get : x.Value → Text → Option x.Value
  pub as_str : x.Value → Option Text
  pub null : x.Value

pub record McpTool (x : Opaque) : Type 0 where
  pub name : Text
  pub description : Text
  pub input_schema : x.Value

pub record McpManifest (x : Opaque) : Type 0 where
  pub tools : List (McpTool x)
  pub resources : List Text
  pub prompts : List Text

-- The HTTP client of the source has no state of the program's.
pub record McpClient (x : Opaque) : Type 0 where
  pub endpoint : AiEndpoint x

pub record McpRegistry (x : Opaque) : Type 0 where
  pub clients : Map Text (McpClient x)
  pub tool_index : Map Text Text

abbrev pub or_value {ℓ} : {A : Type ℓ} → A → Option A → A
or_value a none = a
or_value a (some b) = b

module _ {x : Opaque} where
  unfoldable pub new : McpRegistry x
  new = record { clients = []; tool_index = [] }

  unfoldable pub register : McpRegistry x → AiEndpoint x → McpRegistry x
  register r endpoint = record r {
    clients = insert r.clients endpoint.id (record { endpoint = endpoint });
  }

  unfoldable pub get : McpRegistry x → Text → Option (McpClient x)
  get r endpoint_id = get_entry r.clients endpoint_id

  unfoldable pub find_endpoint_for_tool : McpRegistry x → Text → Option Text
  find_endpoint_for_tool r tool_name = get_entry r.tool_index tool_name

  -- `data.get("tool").and_then(|v| v.as_str()).unwrap_or("unknown")`
  unfoldable pub tool_of : Json x → Message x → Text
  tool_of json msg = elim (json.get msg.payload (codes "tool")) [
    | none ↦ codes "unknown"
    | some v ↦ or_value (codes "unknown") (json.as_str v)
  ]

  -- A GET of the manifest at a URL: an error's text or the manifest.
  module _ (fetch : Text → Text ⊎ McpManifest x) where
    unfoldable pub discover_tools : McpClient x → Text ⊎ List (McpTool x)
    discover_tools c = elim (fetch (trim_end_slashes c.endpoint.url ++ codes "/mcp/tools")) [
      | inl error ↦ inl error
      | inr manifest ↦ inr manifest.tools
    ]

    unfoldable pub discover_each :
        Map Text (McpClient x) → Map Text (List (McpTool x)) → Map Text (List (McpTool x))
    discover_each [] results = results
    discover_each ((id, client) ∷ clients) results = elim (discover_tools client) [
      | inl error ↦ discover_each clients results
      | inr tools ↦ discover_each clients (insert results id tools)
    ]

    unfoldable pub discover_all : McpRegistry x → Map Text (List (McpTool x))
    unfolding discover_each
    discover_all r = discover_each r.clients []

    -- The tools of one endpoint enter the index where they are not in it yet.
    unfoldable pub index_tools : Text → List (McpTool x) → Map Text Text → Map Text Text
    index_tools id [] index = index
    index_tools id (tool ∷ tools) index =
        index_tools id tools
          (if contains_key index tool.name then index else insert index tool.name id)

    unfoldable pub index_clients : Map Text (McpClient x) → Map Text Text → Map Text Text
    unfolding index_tools
    index_clients [] index = index
    index_clients ((id, client) ∷ clients) index = elim (discover_tools client) [
      | inl error ↦ index_clients clients index
      | inr tools ↦ index_clients clients (index_tools id tools index)
    ]

    unfoldable pub discover_and_index : McpRegistry x → McpRegistry x
    unfolding index_clients
    discover_and_index r = record r { tool_index = index_clients r.clients [] }

  -- A POST of a value to a URL: an error's text or the answer.
  module _ (post : Text → x.Value → Text ⊎ x.Value) where
    unfoldable pub call_tool : McpClient x → Text → x.Value → Text ⊎ x.Value
    call_tool c tool_name arguments =
        post (trim_end_slashes c.endpoint.url ++ codes "/mcp/tools/" ++ tool_name ++ codes "/call")
          arguments

    unfoldable pub route_message : Json x → McpClient x → Message x → Text ⊎ Option x.Value
    unfolding call_tool
    route_message json c msg =
        if msg.msg_type == codes "mcp_tool_call"
        then (elim (call_tool c (tool_of json msg)
            (or_value json.null (json.get msg.payload (codes "arguments")))) [
              | inl error ↦ inl error
              | inr result ↦ inr (some result)
            ])
        else inr none

    unfoldable pub call_tool_by_name : McpRegistry x → Text → x.Value → Text ⊎ Option x.Value
    unfolding call_tool
    call_tool_by_name r tool_name arguments = elim (find_endpoint_for_tool r tool_name) [
      | none ↦ inr none
      | some endpoint_id ↦ elim (get_entry r.clients endpoint_id) [
        | none ↦ inr none
        | some client ↦ elim (call_tool client tool_name arguments) [
          | inl error ↦ inl error
          | inr result ↦ inr (some result)
        ]
      ]
    ]
