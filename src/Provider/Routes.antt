-- ===== src/Provider/Routes.antt =====
-- routing.py: `RouteWriter`, which checks a routing command, saves the alias and writes the file of
-- routes anew.
pub mod Targets
pub mod Unique
pub mod Valid
use Prim.Native.Char.{Char, code}
use Prim.Native.String.{compare as compare_text}
use Prim.Native.String
use Prim.Native.Nat.{Ordering}
use layerrail_deploy.Prelude.{
  ℕ, suc, String, ◌⊕◌, ◌==◌, Bool, true, false, not, ◌&&◌, ◌||◌, Option, none, some, List, [], ◌∷◌,
  ltb, leb, nat_eq, if◌then◌else◌, remove_char, is_some, chars, split_on, ends_with,
}
use layerrail_deploy.Effect.{Exec, pure, raise, gets, modify, guard, require, ◌>>=◌, ◌>>◌}
use layerrail_deploy.Json.{
  Json, text, array, object, Items, nil, cons, Fields, end, field, get, put,
}
use layerrail_deploy.Provider.State.{
  Trouble, invalid_route, internal, Revision, Alias, State, Method, save_alias,
  revision_for_deployment,
}
use layerrail_deploy.Provider.State

-- What the routes use of Python on values of any form: `str` of a JSON value and of a number,
-- `int` of a JSON value (a negative number is 0 here, and both are refused), and `str.lower`.
pub record Python : Type 0 where
  pub show : Json → String
  pub decimal : ℕ → String
  pub to_int : Json → Option ℕ
  pub lower : String → String

-- `[a-z0-9]`
abbrev pub is_alnum : Char → Bool
is_alnum c = leb b'a' (code c) && leb (code c) b'z' || leb b'0' (code c) && leb (code c) b'9'

-- `[a-z0-9-]*` and then `[a-z0-9]`, after the first character of a label
abbrev pub label_tail : Char → String → Bool
label_tail c String.[] = is_alnum c
label_tail c (String.◌∷◌ d s) = (is_alnum c || nat_eq (code c) b'-') && label_tail d s

-- `[a-z0-9](?:[a-z0-9-]{0,61}[a-z0-9])?`
abbrev pub is_label : String → Bool
is_label String.[] = false
is_label (String.◌∷◌ c s) = is_alnum c && label_tail c s && leb (chars s) 62

abbrev pub all_labels : List String → Bool
all_labels [] = true
all_labels (s ∷ l) = is_label s && all_labels l

abbrev pub has_two : List String → Bool
has_two (s ∷ t ∷ l) = true
has_two _ = false

-- `_HOSTNAME.fullmatch`
unfoldable pub is_hostname : String → Bool
is_hostname s =
    leb 1 (chars s)
    && leb (chars s) 253
    && has_two (split_on b'.' s)
    && all_labels (split_on b'.' s)

abbrev pub is_complete : Fields → Bool
is_complete command =
    is_some (get "alias_id" command)
    && is_some (get "hostname" command)
    && is_some (get "current_revision_id" command)
    && is_some (get "current_deployment_id" command)
    && is_some (get "container_port" command)

-- `revision["revision_id"] == data["current_revision_id"]`: a number equals no text.
abbrev pub is_same_text : String → Option Json → Bool
is_same_text s (some (text t)) = s == t
is_same_text s v = false

-- `ORDER BY alias_id`
abbrev pub insert_alias : Alias → List Alias → List Alias
insert_alias a [] = a ∷ []
insert_alias a (b ∷ rows) =
    let rest = insert_alias a rows in
    elim (compare_text a.alias_id b.alias_id) [ Ordering.gt ↦ b ∷ rest | _ ↦ a ∷ b ∷ rows ]

abbrev pub sorted_aliases : List Alias → List Alias
sorted_aliases [] = []
sorted_aliases (a ∷ rows) = insert_alias a (sorted_aliases rows)

unfoldable pub aliases : Method (List Alias)
aliases = gets (λ s. sorted_aliases s.aliases)

abbrev pub service_name : Alias → String
service_name route = "lrail-alias-" ⊕ remove_char b'-' route.alias_id

unfoldable pub router_of : Alias → Fields
router_of route = field "rule" (text ("Host(`" ⊕ route.hostname ⊕ "`)")) (
    field "entryPoints" (array (cons (text "web") nil))
      (field "service" (text (service_name route)) end))

module _ (python : Python) (deploy_domain : String) where
  abbrev pub str : Json → String
  str (text s) = s
  str v = python.show v

  -- `str(data[key])` of a key that is known to be there
  abbrev pub str_of : String → Fields → String
  str_of key command = elim (get key command) [ none ↦ "" | some v ↦ str v ]

  unfoldable pub service_of : Alias → Fields
  service_of route =
      field "loadBalancer"
        (object (
          field "servers"
            (array (
              cons
                (object (
                  field "url"
                    (text (
                      "http://" ⊕ route.container_name ⊕ ":" ⊕ python.decimal route.container_port))
                    end))
                nil))
            end))
        end

  -- the two dictionaries that the loop of `_write_all` fills
  abbrev pub routers : List Alias → Fields → Fields
  routers [] d = d
  routers (route ∷ rows) d = routers rows (put (service_name route) (object (router_of route)) d)

  abbrev pub services : List Alias → Fields → Fields
  services [] d = d
  services (route ∷ rows) d = services rows (put (service_name route) (object (service_of route)) d)

  unfoldable pub routes_file : List Alias → Fields
  routes_file rows =
      field "http"
        (object (
          field "routers" (object (routers rows end))
            (field "services" (object (services rows end)) end)))
        end

  -- `_write_all` replaces the file as a whole.
  unfoldable pub write_all : Method Unit
  write_all = do rows ← aliases; modify (λ s. record s { routes = routes_file rows })

  -- `int(data["container_port"])`
  abbrev pub port_value : Option Json → Option ℕ
  port_value none = none
  port_value (some v) = python.to_int v

  abbrev pub alias_row : Fields → ℕ → Revision → Alias
  alias_row command port revision = record {
    alias_id = str_of "alias_id" command;
    hostname = python.lower (str_of "hostname" command);
    revision_id = str_of "current_revision_id" command;
    deployment_id = str_of "current_deployment_id" command;
    container_name = revision.container_name;
    container_port = port;
  }

  abbrev pub routed : Alias → Fields
  routed row =
      field "alias_id" (text row.alias_id)
        (field "hostname" (text row.hostname) (field "revision_id" (text row.revision_id) end))

  unfoldable pub apply : Fields → Method Fields
  apply command = do
    guard (is_complete command) (invalid_route "routing command is incomplete")
    let hostname = python.lower (str_of "hostname" command)
    guard (is_hostname hostname && ends_with hostname ("." ⊕ deploy_domain))
        (invalid_route "routing hostname is invalid")
    port ← require (port_value (get "container_port" command)) internal
    guard (leb 1 port && leb port 65535) (invalid_route "routing port is invalid")
    found ← revision_for_deployment (str_of "current_deployment_id" command)
    revision ← require found (invalid_route "routing target is not ready locally")
    guard (is_same_text revision.revision_id (get "current_revision_id" command))
        (invalid_route "routing target is not ready locally")
    save_alias (alias_row command port revision)
    write_all
    pure (routed (alias_row command port revision))

  unfoldable pub remove_deployment : String → Method Unit
  remove_deployment deployment_id = do State.remove_deployment deployment_id; write_all
