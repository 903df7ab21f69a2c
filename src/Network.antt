-- ===== src/Network.antt =====
-- How the server reaches the nodes (internal/server/handlers.go): the HTTP client and whatever
-- answers it are a parameter, and the functions over it stand here.
use prosiak.Base.{ℕ, Text, text, List, [], ◌∷◌, ◌++◌, Bool, true, false, leb, ◌==◌, if◌then◌else◌}
use prosiak.Protocol.{NodeInfo}

pub data Method : Type 0 where
  get put delete : Method

pub record Request : Type 0 where
  pub method : Method
  pub url : Text
  pub body : List ℕ

-- What `Do` and the reading of the body come to. `broken` is a body that fails to be read or closed.
pub data Reply : Type 0 where
  unreachable : Reply
  answer : ℕ → List ℕ → Reply
  broken : ℕ → Reply

-- The state of all that is not the server, and the effect of one request on it.
pub record Network : Type 1 where
  pub World : Type 0
  pub do_request : Request → World → World × Reply

pub data Fetched : Type 0 where
  bytes : List ℕ → Fetched
  failed : Fetched

module _ (net : Network) where
  open net use {World, do_request}

  abbrev chunk_url : Text → Text → Text
  chunk_url address hash = address ++ (text "/chunks/" ++ hash)

  -- `true` for a nil error.
  abbrev accepted : Reply → Bool
  accepted unreachable = false
  accepted (answer code body) = if leb 300 code then false else true
  accepted (broken code) = if leb 300 code then false else true

  -- putChunk
  unfoldable pub put_chunk : Text → Text → List ℕ → World → World × Bool
  put_chunk address hash content w =
      let (w', reply) =
        do_request (record { method = put; url = chunk_url address hash; body = content }) w in
      (w', accepted reply)

  abbrev gone : Reply → Bool
  gone unreachable = false
  gone (answer code body) = code == 404
  gone (broken code) = code == 404

  -- deleteChunk: a node that has no such chunk is as good as one that deleted it.
  unfoldable pub delete_chunk : Text → Text → World → World × Bool
  delete_chunk address hash w =
      let (w', reply) =
        do_request (record { method = delete; url = chunk_url address hash; body = [] }) w in
      (w', (if gone reply then true else accepted reply))

  -- clearNodeStorage
  unfoldable pub clear_node_storage : Text → World → World × Bool
  clear_node_storage address w =
      let (w', reply) =
        do_request
          (record {
            method = delete;
            url = address ++ text "/storage?confirm=delete-all-chunks";
            body = [];
          })
          w in
      (w', accepted reply)

  abbrev content_of : Reply → Fetched
  content_of unreachable = failed
  content_of (answer code body) = if leb 300 code then failed else bytes body
  content_of (broken code) = failed

  -- fetchFromAny: the first node that answers, in the order of the list.
  unfoldable pub fetch_from_any : List NodeInfo → Text → World → World × Fetched
  fetch_from_any [] hash w = (w, failed)
  fetch_from_any (n ∷ ns) hash w =
      let (w', reply) =
        do_request (record { method = get; url = chunk_url n.address hash; body = [] }) w in
      elim (content_of reply) [ bytes body ↦ (w', bytes body) | failed ↦ fetch_from_any ns hash w' ]
