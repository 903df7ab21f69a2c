-- ===== src/Handlers/Mux.antt =====
-- Where requests go (internal/server/handlers.go: Routes), with ServeMux of net/http. A path is taken
-- without escapes, so that it is its own escaped form; requests are not CONNECT.
use prosiak.Base.{
  Text, text, List, [], ◌∷◌, ◌++◌, Bool, true, false, not, ◌&&◌, ◌||◌, Option, none, some, eqb,
  if◌then◌else◌, ltb, length, any, cut_suffix, cut_prefix,
}
use Prim.Native.String.{String}
use prosiak.Client.Paths.{clean, has_prefix, is_abs}

-- The handlers that Routes registers.
pub data Route : Type 0 where
  web health register nodes delete_node plan_chunk confirm_chunk chunk_locations backup files
        create_file file_manifest patch_file delete_file :
      Route

-- A method with a path, and its handler.
pub record Pattern : Type 0 where
  pub method : Text
  pub path : Text
  pub route : Route

abbrev handle : String → String → Route → Pattern
handle method path route = record { method = text method; path = text path; route = route }

-- Routes
abbrev pub patterns : List Pattern
patterns =
    handle "GET" "/" web
    ∷ handle "GET" "/health" health
    ∷ handle "POST" "/nodes/register" register
    ∷ handle "POST" "/nodes/heartbeat" register
    ∷ handle "GET" "/nodes" nodes
    ∷ handle "DELETE" "/nodes/" delete_node
    ∷ handle "POST" "/chunks/plan-upload" plan_chunk
    ∷ handle "POST" "/chunks/confirm" confirm_chunk
    ∷ handle "GET" "/chunks/" chunk_locations
    ∷ handle "POST" "/backups" backup
    ∷ handle "GET" "/files" files
    ∷ handle "POST" "/files" create_file
    ∷ handle "GET" "/files/" file_manifest
    ∷ handle "PATCH" "/files/" patch_file
    ∷ handle "DELETE" "/files/" delete_file
    ∷ []

abbrev pub ends_in_slash : Text → Bool
ends_in_slash s = elim (cut_suffix (text "/") s) [ none ↦ false | some rest ↦ true ]

-- A path that ends in a slash stands for all below it.
unfoldable pub fits_path : Text → Text → Bool
unfolding cut_prefix
fits_path pattern path = if ends_in_slash pattern then has_prefix pattern path else eqb pattern path

-- GET stands for HEAD too.
unfoldable pub fits_method : Text → Text → Bool
fits_method pattern method =
    eqb pattern method || (eqb pattern (text "GET") && eqb method (text "HEAD"))

unfoldable pub fits : Text → Text → Pattern → Bool
unfolding fits_path fits_method
fits method path p = fits_method p.method method && fits_path p.path path

abbrev longer : Pattern → Option Pattern → Pattern
longer p none = p
longer p (some q) = if ltb (length p.path) (length q.path) then q else p

-- The pattern that takes a request: the most specific one, which is the longest here.
unfoldable pub find : Text → Text → List Pattern → Option Pattern
unfolding fits
find method path [] = none
find method path (p ∷ ps) =
    let later = find method path ps in if fits method path p then some (longer p later) else later

-- cleanPath of net/http
unfoldable pub clean_path : Text → Text
unfolding clean
clean_path s =
    let rooted = if is_abs s then s else text "/" ++ s in
    let cleaned = clean rooted in
    if ends_in_slash rooted && not (eqb cleaned (text "/")) then cleaned ++ text "/" else cleaned

pub data Routed : Type 0 where
  moved : Text → Routed
  not_allowed not_found : Routed
  routed : Route → Routed

abbrev exactly : Text → Option Pattern → Bool
exactly path none = false
exactly path (some p) = eqb p.path path

-- The choice of ServeMux for a path and its cleaned form, from the patterns that take that form and
-- that form with a slash behind it.
unfoldable pub choose : List Pattern → Text → Text → Option Pattern → Option Pattern → Routed
choose ps raw path found found_slashed =
    let slashed = path ++ text "/" in
    if not (exactly path found) && not (ends_in_slash path) && exactly slashed found_slashed
    then moved slashed
    else if not (eqb path raw)
    then moved path
    else elim found [
      | some p ↦ routed p.route
      | none ↦
          if any (λ (p : Pattern). fits_path p.path path || fits_path p.path slashed) ps
          then not_allowed
          else not_found
    ]

-- The handler of a request, over a table of patterns.
unfoldable pub route_in : List Pattern → Text → Text → Routed
unfolding find clean_path choose
route_in ps method raw =
    let path = clean_path raw in
    choose ps raw path (find method path ps) (find method (path ++ text "/") ps)

unfoldable pub route : Text → Text → Routed
unfolding route_in
route = route_in patterns
