-- ===== src/Notifications/Ids.antt =====
-- The ids that `add` gives, by which the list of toasts is keyed.
use gatesentry.Shared.{
  ℕ, suc, ◌+◌, ◌≤◌, ◌<◌, List, [], ◌∷◌, ◌++◌, map, ◌≡◌, ◌∙◌, refl, ap, arith, ◌==◌, length, count,
  count-append, if◌then◌else◌, leb, ltb, ℕ_eq, ◌&&◌,
}
use gatesentry.Notifications.{Notification, Message, add, remove}

abbrev pub ids : List Notification → List ℕ
ids = map (λ n. n.id)

-- The ids are `k`, `k + 1` and so on.
abbrev pub IsNumberedFrom : ℕ → List Notification → Type 0
IsNumberedFrom k [] = Unit
IsNumberedFrom k (n ∷ ns) = (n.id ≡ k) × IsNumberedFrom (suc k) ns

append-IsNumberedFrom :
    (k : ℕ) (ns : List Notification) (n : Notification)
    → n.id ≡ length ns + k
    → IsNumberedFrom k ns
    → IsNumberedFrom k (ns ++ n ∷ [])
append-IsNumberedFrom k [] n e h = (omega arith, tt)
append-IsNumberedFrom k (m ∷ ns) n e (p, h) =
    (p, append-IsNumberedFrom (suc k) ns n (omega arith) h)

-- While no toast is removed, the toasts are numbered from 1, so their ids are distinct.
pub add-IsNumberedFrom :
    (m : Message) (ns : List Notification) → IsNumberedFrom 1 ns → IsNumberedFrom 1 (add m ns)
unfolding add
add-IsNumberedFrom m ns h = append-IsNumberedFrom 1 ns _ refl h

count-ids :
    (k j : ℕ) (ns : List Notification)
    → IsNumberedFrom k ns
    → count j (ids ns) ≡ (if leb k j && ltb j (k + length ns) then 1 else 0)
count-ids k j [] h = ground arith
count-ids k j (n ∷ ns) (p, h) = ground (arith, count-ids (suc k) j ns h)

length-remove :
    (d : Notification) (ns : List Notification)
    → length (remove d ns) + count d.id (ids ns) ≡ length ns
unfolding remove
length-remove d [] = omega arith
length-remove d (n ∷ ns) = ground (arith, length-remove d ns)

-- Removing a toast removes every toast that has its id, and no other.
pub count-ids-remove :
    (d : Notification) (j : ℕ) (ns : List Notification)
    → count j (ids (remove d ns)) ≡ (if d.id == j then 0 else count j (ids ns))
unfolding remove
count-ids-remove d j [] = ground arith
count-ids-remove d j (n ∷ ns) = ground (arith, count-ids-remove d j ns)

ids-append : (xs ys : List Notification) → ids (xs ++ ys) ≡ ids xs ++ ids ys
ids-append [] ys = refl
ids-append (x ∷ xs) ys = ap (x.id ∷◌) (ids-append xs ys)

count-ids-add :
    (m : Message) (j : ℕ) (ns : List Notification)
    → count j (ids (add m ns)) ≡ count j (ids ns) + (if j == length ns + 1 then 1 else 0)
unfolding add
count-ids-add m j ns =
    ap (count j) (ids-append ns _) ∙ (count-append j (ids ns) ((length ns + 1) ∷ []) ∙ ground arith)

-- If toasts are numbered from 1 and one that is not the last is removed, then the next toast that
-- is added has the id of the last: two toasts share it, though the list is keyed by the id.
pub add-remove_duplicate :
    (m : Message) (d : Notification) (ns : List Notification)
    → IsNumberedFrom 1 ns
    → 1 ≤ d.id
    → d.id < length ns
    → count (length ns) (ids (add m (remove d ns))) ≡ 2
add-remove_duplicate m d ns h low high =
    let one = count-ids 1 d.id ns h in
    let last = count-ids 1 (length ns) ns h in
    ground (
      arith,
      one,
      last,
      length-remove d ns,
      count-ids-remove d (length ns) ns,
      count-ids-add m (length ns) (remove d ns),
    )
