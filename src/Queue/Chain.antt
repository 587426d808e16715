-- ===== src/Queue/Chain.antt =====
-- What a heap must hold for a list of cells, addresses with descriptors, to be a chain of nodes.
use cse344_coursework.Base.{
  ◌≡◌, refl, ◌≢◌, Bool, true, false, ◌||◌, ℤ, none, some, List, [], ◌∷◌, ◌++◌, ◌==◌, arith,
}
use cse344_coursework.Queue.Nodes.{Ptr, null, Heap, node}

abbrev pub Cells : Type 0
Cells = List (Ptr × ℤ)

abbrev pub has : Ptr → Cells → Bool
has a [] = false
has a ((p, v) ∷ cs) = (a == p) || has a cs

abbrev pub first : Cells → Ptr
first [] = null
first ((a, v) ∷ cs) = a

abbrev pub last : Cells → Ptr
last [] = null
last ((a, v) ∷ []) = a
last (c ∷ d ∷ cs) = last (d ∷ cs)

-- Each cell's node stands at its address and leads to the next cell's; no address comes twice.
abbrev pub Linked : Heap → Cells → Type 0
Linked h [] = Unit
Linked h ((a, v) ∷ cs) =
    (a ≢ null) × (h a ≡ some (node v (first cs))) × (has a cs ≡ false) × Linked h cs

pub Linked-agree :
    (h g : Heap) (cs : Cells)
    → ((a : Ptr) → has a cs ≡ true → g a ≡ h a)
    → Linked h cs
    → Linked g cs
Linked-agree h g [] same l = tt
Linked-agree h g ((a, v) ∷ cs) same (ne, at, out, l) =
    (ne, ground (arith, same a), out, Linked-agree h g cs (λ b i. same b (ground arith)) l)

pub has-last : (c : Ptr × ℤ) (cs : Cells) → has (last (c ∷ cs)) (c ∷ cs) ≡ true
has-last (a, v) [] = ground arith
has-last (a, v) (d ∷ cs) = ground (arith, has-last d cs)

pub last-append : (cs : Cells) (a : Ptr) (v : ℤ) → last (cs ++ ((a, v) ∷ [])) ≡ a
last-append [] a v = refl
last-append (c ∷ []) a v = refl
last-append (c ∷ d ∷ cs) a v = last-append (d ∷ cs) a v

pub first-append : (c : Ptr × ℤ) (cs ds : Cells) → first ((c ∷ cs) ++ ds) ≡ first (c ∷ cs)
first-append (a, v) cs ds = refl

pub has-append_one :
    (b : Ptr) (cs : Cells) (a : Ptr) (v : ℤ) → has b (cs ++ ((a, v) ∷ [])) ≡ (has b cs || (b == a))
has-append_one b [] a v = ground arith
has-append_one b ((p, w) ∷ cs) a v = ground (arith, has-append_one b cs a v)

-- An address in use holds a node, so one that holds none is not in use.
pub not-has_of_none :
    (h : Heap) (a : Ptr) (cs : Cells) → Linked h cs → h a ≡ none → has a cs ≡ false
not-has_of_none h a [] l e = refl
not-has_of_none h a ((p, v) ∷ cs) (ne, at, out, l) e = ground (arith, not-has_of_none h a cs l e)

pub last-ne-null : (h : Heap) (c : Ptr × ℤ) (cs : Cells) → Linked h (c ∷ cs) → last (c ∷ cs) ≢ null
last-ne-null h (a, v) [] (ne, at, out, l) = ne
last-ne-null h (a, v) (d ∷ cs) (ne, at, out, l) = last-ne-null h d cs l

-- What `p->next = q` does at the last cell.
pub last-node :
    (h : Heap) (c : Ptr × ℤ) (cs : Cells)
    → Linked h (c ∷ cs)
    → (v : ℤ) × (h (last (c ∷ cs)) ≡ some (node v null))
last-node h (a, v) [] (ne, at, out, l) = (v, at)
last-node h (a, v) (d ∷ cs) (ne, at, out, l) = last-node h d cs l

-- A chain whose last node is led on to a new one is a chain with one cell more.
pub Linked-append :
    (h g : Heap) (c : Ptr × ℤ) (cs : Cells) (a : Ptr) (v w : ℤ)
    → a ≢ null
    → has a (c ∷ cs) ≡ false
    → h (last (c ∷ cs)) ≡ some (node w null)
    → g (last (c ∷ cs)) ≡ some (node w a)
    → g a ≡ some (node v null)
    → ((b : Ptr) → has b (c ∷ cs) ≡ true → b ≢ last (c ∷ cs) → g b ≡ h b)
    → Linked h (c ∷ cs)
    → Linked g ((c ∷ cs) ++ ((a, v) ∷ []))
Linked-append h g (p, u) [] a v w na fresh at_h at_g new same (ne, at, out, l) =
    (ne, ground arith, ground arith, (na, new, refl, tt))
Linked-append h g (p, u) ((q, x) ∷ cs) a v w na fresh at_h at_g new same (ne, at, out, l) = (
  ne,
  ground (arith, same p, has-last (q, x) cs),
  ground (arith, has-append_one p ((q, x) ∷ cs) a v),
  Linked-append h g (q, x) cs a v w na (ground arith) at_h at_g new
      (λ b i nb. same b (ground arith) nb) l,
)
