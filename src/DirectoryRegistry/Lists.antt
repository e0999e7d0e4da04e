-- ===== src/DirectoryRegistry/Lists.antt =====
-- The packets that list the entries, put together again.
use shroomio.Base.{
  ℕ, zero, suc, ◌+◌, ◌-◌, ◌*◌, ◌≤◌, ◌<◌, ◌≡◌, ◌≢◌, refl, sym, ap, ◌∙◌, false, Option, none, some,
  List, [], ◌∷◌, ◌++◌, arith, length, take, drop, min, leb, ltb, ◌==◌, ◌||◌,
}
use shroomio.DirectoryRegistry.{Server, ListPacket, max_entries, entries_per_packet}
use shroomio.DirectoryRegistry.Operations.{
  list_chunk_count, list_packet, chunk_size, build_list_packet,
}

abbrev pub entries_of : Option ListPacket → List Server
entries_of none = []
entries_of (some p) = p.entries

-- The entries of a number of packets, from one on.
unfoldable pub collect : List Server → ℕ → ℕ → ℕ → List Server
collect es generation i zero = []
collect es generation i (suc k) =
    entries_of (build_list_packet (some es) (length es) generation i)
    ++ collect es generation (suc i) k

take-drop : (m k : ℕ) (xs : List Server) → m ≡ min (length xs) k → take m xs ++ drop k xs ≡ xs
take-drop zero zero [] h = refl
take-drop zero (suc k) [] h = refl
take-drop (suc m) k [] h = absurd (omega arith)
take-drop zero zero (x ∷ xs) h = refl
take-drop zero (suc k) (x ∷ xs) h = absurd (omega arith)
take-drop (suc m) zero (x ∷ xs) h = absurd (omega arith)
take-drop (suc m) (suc k) (x ∷ xs) h = ap (λ ys. x ∷ ys) (take-drop m k xs (omega arith))

length-drop : (k : ℕ) (xs : List Server) → length (drop k xs) ≡ length xs - k
length-drop zero xs = omega arith
length-drop (suc k) [] = omega arith
length-drop (suc k) (x ∷ xs) = omega (arith, length-drop k xs)

drop_nil : (k : ℕ) → drop {A = Server} k [] ≡ []
drop_nil zero = refl
drop_nil (suc k) = refl

drop-drop : (a b : ℕ) (xs : List Server) → drop b (drop a xs) ≡ drop (a + b) xs
drop-drop zero b xs = ap (λ n. drop n xs) (omega arith)
drop-drop (suc a) b [] = drop_nil b ∙ sym (drop_nil (suc a + b))
drop-drop (suc a) b (x ∷ xs) = drop-drop a b xs ∙ ap (λ n. drop n (x ∷ xs)) sum
  where
    sum : suc (a + b) ≡ suc a + b
    sum = omega arith

drop-all : (k : ℕ) (xs : List Server) → length xs ≤ k → drop k xs ≡ []
drop-all zero [] h = refl
drop-all zero (x ∷ xs) h = absurd (omega arith)
drop-all (suc k) [] h = refl
drop-all (suc k) (x ∷ xs) h = drop-all k xs (omega arith)

list_chunk_count-bounds :
    (n : ℕ)
    → n ≤ max_entries
    → (n ≤ list_chunk_count n * entries_per_packet) × (list_chunk_count n ≤ 5)
unfolding list_chunk_count
list_chunk_count-bounds n h = (ground arith, ground arith)

build_list_packet-some :
    (es : List Server) (generation i : ℕ)
    → length es ≤ max_entries
    → generation ≢ 0
    → i < list_chunk_count (length es)
    → build_list_packet (some es) (length es) generation i
      ≡ some (list_packet (length es) generation i es)
unfolding build_list_packet
build_list_packet-some es generation i small named before =
    rw (fine generation (length es) i (list_chunk_count (length es)) small named before) refl
  where
    fine :
        (g n k c : ℕ)
        → n ≤ max_entries
        → g ≢ 0
        → k < c
        → (g == 0 || ltb max_entries n || leb c k) ≡ false
    fine g n k c small named before = ground arith

collect-drop :
    (es : List Server) (generation i k : ℕ)
    → length es ≤ max_entries
    → generation ≢ 0
    → i + k ≡ list_chunk_count (length es)
    → collect es generation i k ≡ drop (i * entries_per_packet) es
unfolding collect
collect-drop es generation i zero small named all =
    let enough = (list_chunk_count-bounds (length es) small).0 in
    sym (drop-all (i * entries_per_packet) es (omega (arith, enough, all)))
collect-drop es generation i (suc k) small named all =
    let start = i * entries_per_packet in
    rw (build_list_packet-some es generation i small named (omega arith)) (
      ap (λ xs. take (chunk_size (length es) i) (drop start es) ++ xs)
        (collect-drop es generation (suc i) k small named (omega arith)
          ∙ ap (λ n. drop n es) (omega arith)
          ∙ sym (drop-drop start entries_per_packet es))
      ∙ take-drop (chunk_size (length es) i) entries_per_packet (drop start es)
          (ap (λ n. min n entries_per_packet) (sym (length-drop start es))))

-- The packets that the directory builds for a list of entries that is short enough, one for each
-- index below the number of chunks that they tell, carry together the entries of the list, each
-- once and in order, and there are at most five.
pub collect-all :
    (es : List Server) (generation : ℕ)
    → length es ≤ max_entries
    → generation ≢ 0
    → (collect es generation 0 (list_chunk_count (length es)) ≡ es)
      × (list_chunk_count (length es) ≤ 5)
collect-all es generation small named = (
  collect-drop es generation 0 (list_chunk_count (length es)) small named (omega arith),
  (list_chunk_count-bounds (length es) small).1,
)
