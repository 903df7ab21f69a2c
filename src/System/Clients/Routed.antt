-- ===== src/System/Clients/Routed.antt =====
-- Where the client's requests go (internal/server/handlers.go: Routes).
use prosiak.Base.{
  Text, text, List, [], ◌∷◌, ◌++◌, append_assoc, false, some, ◌≡◌, refl, ap, sym, ◌∙◌, arith, eqb,
  eqb_refl, any, cut_prefix, cut_suffix, cut_prefix-append, reverse, reverse-append,
  reverse-reverse, All,
}
use prosiak.Client.Paths.{clean, join}
use prosiak.Client.Paths.Components.{IsPlain, clean-plain}
use prosiak.Handlers.Mux.{
  Pattern, Route, routed, route, route_in, choose, patterns, ends_in_slash, clean_path, find, fits,
  fits_path, fits_method,
}

pub cut_suffix-append : (s suffix : Text) → cut_suffix suffix (s ++ suffix) ≡ some s
cut_suffix-append s suffix =
    let e =
      ap (cut_prefix (reverse suffix)) (reverse-append s suffix)
      ∙ cut_prefix-append (reverse suffix) (reverse s) in
    rw (e, cut_suffix) (ap some (reverse-reverse s))

abbrev pub download_path : Text → Text
download_path id = text "/files/" ++ (id ++ text "/download")

pub upload_route : route (text "POST") (text "/backups") ≡ routed Route.backup
unfolding route eqb
upload_route = refl

no_slash_end : (s : Text) → ends_in_slash (s ++ text "d") ≡ false
unfolding cut_prefix
no_slash_end s = let e = reverse-append s (text "d") in rw (e, ends_in_slash, cut_suffix) refl

download-IsPlain : (id : Text) → IsPlain id → All IsPlain (text "files" ∷ id ∷ text "download" ∷ [])
unfolding eqb any
download-IsPlain id h = (
  record { filled = refl; not_dot = refl; not_up = refl; no_slash = refl },
  (h, (record { filled = refl; not_dot = refl; not_up = refl; no_slash = refl }, tt)),
)

clean_download : (id : Text) → IsPlain id → clean (download_path id) ≡ download_path id
unfolding join
clean_download id h = clean-plain (text "files") (id ∷ text "download" ∷ []) (download-IsPlain id h)

path-end : (id : Text) → download_path id ≡ (text "/files/" ++ (id ++ text "/downloa")) ++ text "d"
path-end id = sym (
    append_assoc (text "/files/") (id ++ text "/downloa") (text "d")
    ∙ ap (λ s. text "/files/" ++ s) (append_assoc id (text "/downloa") (text "d")))

download_end : (id : Text) → ends_in_slash (download_path id) ≡ false
download_end id =
    ap ends_in_slash (path-end id) ∙ no_slash_end (text "/files/" ++ (id ++ text "/downloa"))

clean_path-download : (id : Text) → IsPlain id → clean_path (download_path id) ≡ download_path id
unfolding clean_path
clean_path-download id h = rw (clean_download id h, download_end id) refl

abbrev below_files : Pattern
below_files = record { method = text "GET"; path = text "/files/"; route = Route.file_manifest }

find_below : (s : Text) → find (text "GET") (text "/files/" ++ s) patterns ≡ some below_files
unfolding find fits fits_path fits_method eqb cut_prefix
find_below s = refl

chosen :
    (ps : List Pattern) (path : Text) (p q : Pattern)
    → ends_in_slash path ≡ false
    → eqb q.path (path ++ text "/") ≡ false
    → choose ps path path (some p) (some q) ≡ routed p.route
unfolding choose
chosen ps path p q no_end other = rw (no_end, other, eqb_refl path) (ground arith)

-- A path with no slash at its end goes where its pattern says, unless the path with a slash is one.
routed_plain :
    (ps : List Pattern) (method path : Text) (p q : Pattern)
    → clean_path path ≡ path
    → ends_in_slash path ≡ false
    → find method path ps ≡ some p
    → find method (path ++ text "/") ps ≡ some q
    → eqb q.path (path ++ text "/") ≡ false
    → route_in ps method path ≡ routed p.route
unfolding route_in
routed_plain ps method path p q cleaned no_end found slashed other =
    ap (λ c. choose ps path c (find method c ps) (find method (c ++ text "/") ps)) cleaned
    ∙ ap (λ f. choose ps path path f (find method (path ++ text "/") ps)) found
    ∙ ap (choose ps path path (some p)) slashed
    ∙ chosen ps path p q no_end other

pub download_route :
    (id : Text) → IsPlain id → route (text "GET") (download_path id) ≡ routed Route.file_manifest
unfolding route eqb
download_route id h =
    routed_plain patterns (text "GET") (download_path id) below_files below_files
      (clean_path-download id h) (download_end id) (find_below (id ++ text "/download"))
      (find_below ((id ++ text "/download") ++ text "/")) (longer_path id h)
  where
    filled : eqb [] [] ≡ false → ⊥
    filled h = ground (arith, h, eqb_refl [])

    longer_path :
        (s : Text) → IsPlain s → eqb (text "/files/") (download_path s ++ text "/") ≡ false
    longer_path [] plain = absurd (filled plain.filled)
    longer_path (c ∷ s) plain = refl
