-- ===== src/System/Entries.antt =====
-- The entries of a manifest and the chunks of the stream that they are of
-- (internal/server/handlers.go: backupFile).
use prosiak.Base.{
  ℕ, zero, suc, ◌+◌, pos, leb_ℤ, Text, List, [], ◌∷◌, ◌++◌, append_assoc, map, take, drop, Bool,
  Option-cases, some, some_eq, ◌≡◌, refl, ap, sym, ◌∙◌, inl, inr, arith, length, order_by,
  insert_by,
}
use prosiak.Protocol.{ChunkRef}
use prosiak.Chunker.{Chunks, done, broken, next}
use prosiak.Chunker.Split.{joined}
use prosiak.Handlers.Backup.Entered.{entries}
use prosiak.Handlers.Download.Exact.{concat}

pub contents : Chunks → List (List ℕ)
contents done = []
contents broken = []
contents (next content cs) = content ∷ contents cs

pub joined-contents :
    (cs : Chunks) (bytes : List ℕ) → joined cs ≡ some bytes → concat (contents cs) ≡ bytes
unfolding joined concat contents
joined-contents done bytes h = some_eq h
joined-contents broken bytes h = absurd (ground (arith, h))
joined-contents (next content cs) bytes h = elim (Option-cases (joined cs)) [
  | inl none_there ↦ absurd (ground (arith, none_there, h))
  | inr (rest, e) ↦ ap (λ r. content ++ r) (joined-contents cs rest e) ∙ some_eq (rw e at h)
]

pub concat-take :
    (n : ℕ) (xs : List (List ℕ)) → concat xs ≡ concat (take n xs) ++ concat (drop n xs)
unfolding concat
concat-take zero xs = refl
concat-take (suc n) [] = refl
concat-take (suc n) (x ∷ xs) =
    ap (λ r. x ++ r) (concat-take n xs)
    ∙ sym (append_assoc x (concat (take n xs)) (concat (drop n xs)))

pub entries-hashes :
    (hash_data : List ℕ → Text) (i : ℕ) (cs : Chunks)
    → map (λ (c : ChunkRef). c.hash) (entries hash_data i cs) ≡ map hash_data (contents cs)
unfolding entries contents
entries-hashes hash_data i done = refl
entries-hashes hash_data i broken = refl
entries-hashes hash_data i (next content cs) =
    ap (◌∷◌ (hash_data content)) (entries-hashes hash_data (i + 1) cs)

abbrev pub by_index : ChunkRef → ChunkRef → Bool
by_index a b = leb_ℤ a.index b.index

pub entries-ordered :
    (hash_data : List ℕ → Text) (i : ℕ) (cs : Chunks)
    → order_by by_index (entries hash_data i cs) ≡ entries hash_data i cs
unfolding entries order_by
entries-ordered hash_data i done = refl
entries-ordered hash_data i broken = refl
entries-ordered hash_data i (next content cs) =
    ap
      (insert_by by_index
        (record { index = pos i; hash = hash_data content; size = pos (length content) }))
      (entries-ordered hash_data (i + 1) cs)
    ∙ first_stays cs
  where
    first_stays :
        (later : Chunks)
        → insert_by by_index
            (record { index = pos i; hash = hash_data content; size = pos (length content) })
            (entries hash_data (i + 1) later)
          ≡ record { index = pos i; hash = hash_data content; size = pos (length content) }
            ∷ entries hash_data (i + 1) later
    first_stays done = refl
    first_stays broken = refl
    first_stays (next c more) = ground arith
