-- ===== src/Heap/Chain.antt =====
-- kernel/memory/heap.cpp: the blocks of a heap as a list, which tiles the heap from an address on.
use shirleys_os.Heap.{Heap, used_tag, free_tag}
use shirleys_os.Prelude.{
  ℕ, ◌+◌, ◌%◌, ◌≤◌, ◌<◌, ◌≡◌, ◌≢◌, ◌⊎◌, inl, inr, Bool, true, false, List, [], ◌∷◌, ◌-◌, u64_mod,
  arith, refl, sym, ◌∙◌,
}

-- A block with its size, header included.
pub data Piece : Type 0 where
  vacant : ℕ → Piece
  held : ℕ → Piece

abbrev pub size_of : Piece → ℕ
size_of (vacant n) = n
size_of (held n) = n

-- The blocks stand in memory from `a` to the end of the heap, and the free ones are linked in this order
-- from `v` on, the content of the link before them.
abbrev pub Chain : Heap → ℕ → ℕ → List Piece → Type 0
Chain s a v [] = (a ≡ s.heap_end) × (v ≡ 0)
Chain s a v (vacant n ∷ bs) =
    (s.sizes a ≡ n) × (s.tags a ≡ free_tag) × (v ≡ a) × Chain s (a + n) (s.links a) bs
Chain s a v (held n ∷ bs) = (s.sizes a ≡ n) × (s.tags a ≡ used_tag) × Chain s (a + n) v bs

abbrev pub IsSize : ℕ → Type 0
IsSize n = (32 ≤ n) × (n % 16 ≡ 0)

-- All sizes are proper, and no two free blocks are neighbours, nor the first one and a free block in front.
abbrev pub IsTidy : Bool → List Piece → Type 0
IsTidy after [] = Unit
IsTidy after (vacant n ∷ bs) = IsSize n × (after ≡ false) × IsTidy true bs
IsTidy after (held n ∷ bs) = IsSize n × IsTidy false bs

pub IsTidy-false : (after : Bool) (bs : List Piece) → IsTidy after bs → IsTidy false bs
IsTidy-false after [] t = tt
IsTidy-false after (vacant n ∷ bs) (a, b, c) = (a, refl, c)
IsTidy-false after (held n ∷ bs) t = t

abbrev pub vacancy : List Piece → ℕ
vacancy [] = 0
vacancy (vacant n ∷ bs) = n + vacancy bs
vacancy (held n ∷ bs) = vacancy bs

-- An allocated block of size `n` stands at `x`, where the list begins at `a`.
abbrev pub Live : ℕ → List Piece → ℕ → ℕ → Type 0
Live a [] x n = ¬ Unit {0}
Live a (vacant k ∷ bs) x n = Live (a + k) bs x n
Live a (held k ∷ bs) x n = ((x ≡ a) × (n ≡ k)) ⊎ Live (a + k) bs x n

-- The blocks' end.
abbrev pub end_from : ℕ → List Piece → ℕ
end_from a [] = a
end_from a (p ∷ bs) = end_from (a + size_of p) bs

pub end_from-le : (a : ℕ) (bs : List Piece) → a ≤ end_from a bs
end_from-le a [] = omega arith
end_from-le a (p ∷ bs) = omega (arith, end_from-le (a + size_of p) bs)

pub Chain-end : (s : Heap) (a v : ℕ) (bs : List Piece) → Chain s a v bs → end_from a bs ≡ s.heap_end
Chain-end s a v [] (e, z) = e
Chain-end s a v (vacant n ∷ bs) (c, d, e, f) = Chain-end s (a + n) (s.links a) bs f
Chain-end s a v (held n ∷ bs) (c, d, f) = Chain-end s (a + n) v bs f

pub Chain-le : (s : Heap) (a v : ℕ) (bs : List Piece) → Chain s a v bs → a ≤ s.heap_end
Chain-le s a v bs c = omega (arith, Chain-end s a v bs c, end_from-le a bs)

-- The link before a block that is not free holds no address, or that of a block behind it.
pub Chain-link :
    (s : Heap) (a v : ℕ) (bs : List Piece) → Chain s a v bs → (v ≡ 0) ⊎ ((a ≤ v) × (v ≤ s.heap_end))
Chain-link s a v [] (e, z) = inl z
Chain-link s a v (vacant n ∷ bs) (c, d, e, f) =
    inr (omega arith, omega (arith, Chain-le s (a + n) (s.links a) bs f))
Chain-link s a v (held n ∷ bs) (c, d, f) = elim (Chain-link s (a + n) v bs f) [
  | inl z ↦ inl z
  | inr (l, m) ↦ inr (omega arith, m)
]

pub vacancy-le : (a : ℕ) (bs : List Piece) → a + vacancy bs ≤ end_from a bs
vacancy-le a [] = omega arith
vacancy-le a (vacant n ∷ bs) = omega (arith, vacancy-le (a + n) bs)
vacancy-le a (held n ∷ bs) = omega (arith, vacancy-le (a + n) bs)

-- The well-formed heap with its blocks: they tile the heap and are linked where they are free, no two free ones
-- are neighbours, and the free bytes are counted. The heap has its length of addresses behind it.
pub record IsValid (s : Heap) (bs : List Piece) : Type 0 where
  pub chain : Chain s s.heap_begin (s.links 0) bs
  pub tidy : IsTidy false bs
  pub even : s.heap_begin % 16 ≡ 0
  pub even_end : s.heap_end % 16 ≡ 0
  pub bytes : s.free_bytes ≡ vacancy bs
  pub high : s.heap_end + (s.heap_end - s.heap_begin) + 64 ≤ u64_mod
  pub based : (0 < s.heap_begin) ⊎ (s.heap_end ≡ 0)

-- Two memories have the same fields from an address on.
abbrev pub Agree : Heap → Heap → ℕ → Type 0
Agree s t a =
    (x : ℕ) → a ≤ x → (t.sizes x ≡ s.sizes x) × (t.tags x ≡ s.tags x) × (t.links x ≡ s.links x)

pub Chain-Agree :
    (s t : Heap) (a v : ℕ) (bs : List Piece)
    → t.heap_end ≡ s.heap_end
    → Agree s t a
    → Chain s a v bs
    → Chain t a v bs
Chain-Agree s t a v [] e same (c, z) = (c ∙ sym e, z)
Chain-Agree s t a v (vacant n ∷ bs) e same (c, d, z, f) =
    let (p, q, r) = same a (omega arith) in
    let rest = Chain-Agree s t (a + n) (s.links a) bs e (λ x l. same x (omega arith)) f in
    (p ∙ c, q ∙ d, z, rw r rest)
Chain-Agree s t a v (held n ∷ bs) e same (c, d, f) =
    let (p, q, r) = same a (omega arith) in
    (p ∙ c, q ∙ d, Chain-Agree s t (a + n) v bs e (λ x l. same x (omega arith)) f)

-- What an operation leaves alone when it works on the blocks from `a` on, behind the link `pr`.
pub record Kept (s t : Heap) (pr a : ℕ) : Type 0 where
  pub begins : t.heap_begin ≡ s.heap_begin
  pub ends : t.heap_end ≡ s.heap_end
  pub fields : (x : ℕ) → x < a → (t.sizes x ≡ s.sizes x) × (t.tags x ≡ s.tags x)
  pub linked : (x : ℕ) → x < a → x ≢ pr → t.links x ≡ s.links x

-- The blocks from `a + n` on may be reached over the link of the free block at `a`, or over the same link.
module _ (s t : Heap) (pr a n : ℕ) (h : pr < a) (m : 0 < n) where
  pub Kept-vacant : Kept s t a (a + n) → Kept s t pr a × (t.links pr ≡ s.links pr)
  Kept-vacant k = (
    record {
      begins = k.begins;
      ends = k.ends;
      fields = λ x l. k.fields x (omega arith);
      linked = λ x l ne. k.linked x (omega arith) (λ e. omega arith);
    },
    k.linked pr (omega arith) (λ e. omega arith),
  )

  pub Kept-held : Kept s t pr (a + n) → Kept s t pr a
  Kept-held k = record {
    begins = k.begins;
    ends = k.ends;
    fields = λ x l. k.fields x (omega arith);
    linked = λ x l ne. k.linked x (omega arith) ne;
  }

-- Where the live blocks stand.
pub Live-inside :
    (a : ℕ) (bs : List Piece) (x n : ℕ) → Live a bs x n → (a ≤ x) × (x + n ≤ end_from a bs)
Live-inside a [] x n l = absurd (l tt)
Live-inside a (vacant k ∷ bs) x n l = let (p, q) = Live-inside (a + k) bs x n l in (omega arith, q)
Live-inside a (held k ∷ bs) x n (inl (e, f)) = (omega arith, omega (arith, end_from-le (a + k) bs))
Live-inside a (held k ∷ bs) x n (inr l) =
    let (p, q) = Live-inside (a + k) bs x n l in (omega arith, q)

pub Live-IsSize :
    (after : Bool) (a : ℕ) (bs : List Piece) (x n : ℕ)
    → IsTidy after bs
    → a % 16 ≡ 0
    → Live a bs x n
    → IsSize n × (x % 16 ≡ 0)
Live-IsSize after a [] x n t h l = absurd (l tt)
Live-IsSize after a (vacant k ∷ bs) x n (c, d, t) h l =
    Live-IsSize true (a + k) bs x n t (omega arith) l
Live-IsSize after a (held k ∷ bs) x n (c, t) h (inl (e, f)) = (rw f c, omega arith)
Live-IsSize after a (held k ∷ bs) x n (c, t) h (inr l) =
    Live-IsSize false (a + k) bs x n t (omega arith) l

-- Two live blocks are the same or lie apart.
pub Live-apart :
    (a : ℕ) (bs : List Piece) (x n y m : ℕ)
    → Live a bs x n
    → Live a bs y m
    → ((x ≡ y) × (n ≡ m)) ⊎ ((x + n ≤ y) ⊎ (y + m ≤ x))
Live-apart a [] x n y m l k = absurd (l tt)
Live-apart a (vacant z ∷ bs) x n y m l k = Live-apart (a + z) bs x n y m l k
Live-apart a (held z ∷ bs) x n y m (inl (e, f)) (inl (g, h)) = inl (e ∙ sym g, f ∙ sym h)
Live-apart a (held z ∷ bs) x n y m (inl (e, f)) (inr k) =
    let (p, q) = Live-inside (a + z) bs y m k in inr (inl (omega arith))
Live-apart a (held z ∷ bs) x n y m (inr l) (inl (g, h)) =
    let (p, q) = Live-inside (a + z) bs x n l in inr (inr (omega arith))
Live-apart a (held z ∷ bs) x n y m (inr l) (inr k) = Live-apart (a + z) bs x n y m l k
