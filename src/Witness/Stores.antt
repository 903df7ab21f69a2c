-- ===== src/Witness/Stores.antt =====
-- The theorems about a node's store that have conditions, each at an input that meets them.
use prosiak.Base.{
  ℕ, pos, text, List, [], ◌∷◌, false, Option, none, some, ◌≡◌, refl, ap, some_eq, ◌≤◌, any, arith,
  length,
}
use prosiak.Store
use prosiak.Store.Usage
use prosiak.Store.{Store, Stored, ok, Aead, Faults, put, new, scan_used, path}
use prosiak.Store.Usage.{Counted, puts, deletes, clears, run-new-Counted}
use prosiak.NodeServer.{put_chunk}
use prosiak.NodeServer.Capacity.{put_chunk-scan_used}
use prosiak.Store.Integrity.{Outcome, put-Outcome}
use prosiak.Witness.{sample_hash, stream}

-- A cipher that marks a text.
abbrev unmark : List ℕ → Option (List ℕ)
unmark [] = none
unmark (b ∷ bs) = some bs

abbrev pub marking : Aead
marking = record {
  nonce_size = 1;
  seal = λ nonce x. 16 ∷ x;
  open_sealed = λ nonce x. unmark x;
  open_seal = λ nonce x. refl;
}

abbrev pub no_fault : Faults
no_fault = record {
  mkdir = false;
  create = false;
  body = false;
  close = false;
  nonce = false;
  write = none;
  rename = false;
}

abbrev pub sealed_file : Stored
sealed_file = record { name = text "cd34"; temporary = false; content = 7 ∷ 16 ∷ 1 ∷ 2 ∷ [] }

abbrev pub sealed_store : Store
sealed_store = record { aead = some marking; files = sealed_file ∷ []; used = pos 4 }

put-Outcome_example :
    Outcome sample_hash
      (text "ab12")
      stream
      sealed_store
      (put sample_hash (5 ∷ []) (text "ab12") stream no_fault sealed_store)
put-Outcome_example =
    put-Outcome sample_hash (5 ∷ []) (text "ab12") stream no_fault sealed_store
      (λ aead e. nonce_of aead (some_eq e))
  where
    nonce_of : (aead : Aead) → marking ≡ aead → 1 ≡ aead.nonce_size
    nonce_of aead e = ap (λ (c : Aead). c.nonce_size) e

sealed_store-Counted : Counted sealed_store
unfolding scan_used any
sealed_store-Counted = record { used = refl; names = (refl, tt) }

opened_new :
    new (λ key. marking) [] (sealed_file ∷ [])
    ≡ ok (record { aead = none; files = sealed_file ∷ []; used = pos 4 })
unfolding new scan_used
opened_new = refl

abbrev pub store_calls : List Store.Usage.Call
store_calls =
    puts [] (text "ab12") stream no_fault ∷ deletes false (text "cd34") ∷ clears (text "data") ∷ []

run-new-Counted_example :
    let s =
      Store.Usage.run sample_hash
        (record { aead = none; files = sealed_file ∷ []; used = pos 4 })
        store_calls in
    s.used ≡ pos (scan_used s.files)
unfolding any
run-new-Counted_example =
    run-new-Counted sample_hash (λ key. marking) [] (sealed_file ∷ [])
      (record { aead = none; files = sealed_file ∷ []; used = pos 4 }) store_calls opened_new
      (refl, tt)

abbrev plain_store : Store
plain_store = record { aead = none; files = sealed_file ∷ []; used = pos 4 }

plain_store-Counted : Counted plain_store
unfolding scan_used any
plain_store-Counted = record { used = refl; names = (refl, tt) }

four_bytes : scan_used plain_store.files ≤ 20
unfolding scan_used
four_bytes = omega arith

put_chunk-scan_used_example :
    scan_used
      (put_chunk sample_hash
        (pos 20)
        (pos (length stream))
        []
        (text "ab12")
        stream
        no_fault
        plain_store).0.files
    ≤ 20
put_chunk-scan_used_example =
    put_chunk-scan_used sample_hash 20 [] (text "ab12") stream no_fault plain_store
      plain_store-Counted refl four_bytes (omega arith)
