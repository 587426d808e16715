-- ===== src/Queue/Fifo.antt =====
-- Under `IsQueue` the operations are those of a list: enqueue appends, dequeue takes the head, and
-- no pointer is followed that leads nowhere.
use cse344_coursework.Base.{
  ◌+◌, ◌-◌, ◌≡◌, refl, ◌≢◌, ◌∙◌, ap, sym, true, false, ℤ, minus_one, Option, none, some, [], ◌∷◌,
  ◌++◌, ◌==◌, if◌then◌else◌, arith, length, length-append,
}
use cse344_coursework.Queue.Nodes.{Ptr, null, Heap, Node, node, write}
use cse344_coursework.Queue.Chain.{
  Cells, has, first, last, Linked, Linked-agree, has-last, last-append, has-append_one,
  not-has_of_none, last-ne-null, last-node, Linked-append,
}
use cse344_coursework.Queue.{Queue, live, enqueue, dequeue, queue_size}

pub record IsQueue (h : Heap) (q : Queue) (cs : Cells) : Type 0 where
  pub front_first : q.front ≡ first cs
  pub rear_last : q.rear ≡ last cs
  pub size_length : q.size ≡ length cs
  pub linked : Linked h cs

-- Outside the cells `cs` the heap `g` is `h`.
abbrev pub SameOutside : Cells → Heap → Heap → Type 0
SameOutside cs h g = (a : Ptr) → has a cs ≡ false → g a ≡ h a

ne_of_has : (a b : Ptr) (cs : Cells) → has a cs ≡ true → has b cs ≡ false → a ≢ b
ne_of_has a b cs i o e = cc (ap (λ x. has x cs) e)

not-has-append_one :
    (a : Ptr) (cs : Cells) (b : Ptr) (v : ℤ)
    → has a (cs ++ ((b, v) ∷ [])) ≡ false
    → (has a cs ≡ false) × (a ≢ b)
not-has-append_one a cs b v o = ground (arith, has-append_one a cs b v)

write_self : (h : Heap) (p : Ptr) (x : Option Node) → write h p x p ≡ x
unfolding write
write_self h p x = ground arith

module _ (h : Heap) (p q : Ptr) (x y : Option Node) where
  write_two-first : p ≢ q → write (write h p x) q y p ≡ x
  unfolding write
  write_two-first ne = ground arith

  write_two-other : (a : Ptr) → a ≢ p → a ≢ q → write (write h p x) q y a ≡ h a
  unfolding write
  write_two-other a np nq = ground arith

-- The path of `enqueue` through a queue that is not empty.
enqueue-live :
    (h : Heap) (q : Queue) (fresh : Ptr) (fd : ℤ) (end : Ptr) (w : ℤ)
    → q.rear ≡ end
    → fresh ≢ null
    → end ≢ null
    → end ≢ fresh
    → h end ≡ some (node w null)
    → enqueue h (live q) fresh fd
      ≡ some (
        write (write h fresh (some (node fd null))) end (some (node w fresh)),
        live (record { size = q.size + 1; front = q.front; rear = fresh }),
      )
unfolding enqueue write
enqueue-live h q fresh fd end w re ne end_ne apart at = rw re (ground arith)

-- Given an address that `malloc` may return, not null and not in use, `enqueue` puts the descriptor
-- behind the others, and writes to no node but the last one and the new one.
pub enqueue-append :
    (h : Heap) (q : Queue) (cs : Cells) (fresh : Ptr) (fd : ℤ)
    → IsQueue h q cs
    → fresh ≢ null
    → h fresh ≡ none
    → (g : Heap) × (q' : Queue) × (enqueue h (live q) fresh fd ≡ some (g, live q'))
      × IsQueue g q' (cs ++ ((fresh, fd) ∷ []))
      × SameOutside (cs ++ ((fresh, fd) ∷ [])) h g
unfolding enqueue write
enqueue-append h q [] fresh fd is ne unused = (
  write h fresh (some (node fd null)),
  record { size = q.size + 1; front = fresh; rear = fresh },
  rw is.rear_last (ground arith),
  record {
    front_first = refl;
    rear_last = refl;
    size_length = omega (arith, is.size_length);
    linked = (ne, ground arith, refl, tt);
  },
  λ a out. ground arith,
)
enqueue-append h q (c ∷ cs) fresh fd is ne unused =
    let out : has fresh (c ∷ cs) ≡ false = not-has_of_none h fresh (c ∷ cs) is.linked unused in
    let (w, at) = last-node h c cs is.linked in
    let end_ne : last (c ∷ cs) ≢ null = last-ne-null h c cs is.linked in
    let apart = ne_of_has (last (c ∷ cs)) fresh (c ∷ cs) (has-last c cs) out in
    let mid = write h fresh (some (node fd null)) in
    let g = write mid (last (c ∷ cs)) (some (node w fresh)) in
    (
      g,
      record { size = q.size + 1; front = q.front; rear = fresh },
      enqueue-live h q fresh fd (last (c ∷ cs)) w is.rear_last ne end_ne apart at,
      record {
        front_first = is.front_first ∙ refl;
        rear_last = sym (last-append (c ∷ cs) fresh fd);
        size_length = omega (arith, is.size_length, length-append {0} (c ∷ cs) ((fresh, fd) ∷ []));
        linked =
            Linked-append h g c cs fresh fd w ne out at
              (write_self mid (last (c ∷ cs)) (some (node w fresh)))
              (write_two-first h fresh (last (c ∷ cs)) _ _ (λ e. apart (sym e)))
              (λ b i nb.
                write_two-other h fresh (last (c ∷ cs)) _ _ b (ne_of_has b fresh (c ∷ cs) i out) nb)
              is.linked;
      },
      λ a o.
          let (o', nf) = not-has-append_one a (c ∷ cs) fresh fd o in
          write_two-other h fresh (last (c ∷ cs)) _ _ a nf
            (λ e. ne_of_has (last (c ∷ cs)) a (c ∷ cs) (has-last c cs) o' (sym e)),
    )

dequeue-live :
    (h : Heap) (q : Queue) (a : Ptr) (fd : ℤ) (next : Ptr)
    → q.front ≡ a
    → a ≢ null
    → h a ≡ some (node fd next)
    → dequeue h (live q)
      ≡ some (
        fd,
        write h a none,
        live (record {
          size = q.size - 1;
          front = next;
          rear = if next == null then null else q.rear;
        }),
      )
unfolding dequeue
dequeue-live h q a fd next fe ne at = rw fe (ground arith)

rear-rest :
    (h : Heap) (q : Queue) (a : Ptr) (fd : ℤ) (cs : Cells)
    → IsQueue h q ((a, fd) ∷ cs)
    → (if first cs == null then null else q.rear) ≡ last cs
rear-rest h q a fd [] is = refl
rear-rest h q a fd ((b, v) ∷ cs) is = ground arith

-- `dequeue` takes the descriptor that has waited longest, frees its node and no other, and leaves
-- the rest in order.
pub dequeue-head :
    (h : Heap) (q : Queue) (a : Ptr) (fd : ℤ) (cs : Cells)
    → IsQueue h q ((a, fd) ∷ cs)
    → (g : Heap) × (q' : Queue) × (dequeue h (live q) ≡ some (fd, g, live q'))
      × IsQueue g q' cs
      × (g a ≡ none)
      × SameOutside ((a, fd) ∷ []) h g
unfolding dequeue write
dequeue-head h q a fd cs is =
    let (ne, at, out, l) = is.linked in
    (
      write h a none,
      record {
        size = q.size - 1;
        front = first cs;
        rear = if first cs == null then null else q.rear;
      },
      dequeue-live h q a fd (first cs) is.front_first ne at,
      record {
        front_first = refl;
        rear_last = rear-rest h q a fd cs is;
        size_length = omega (arith, is.size_length);
        linked = Linked-agree h (write h a none) cs (λ b i. ground arith) l;
      },
      ground arith,
      λ b o. ground arith,
    )

-- On an empty queue `dequeue` returns -1 and changes nothing.
pub dequeue-nil :
    (h : Heap) (q : Queue) → IsQueue h q [] → dequeue h (live q) ≡ some (minus_one, h, live q)
unfolding dequeue
dequeue-nil h q is = rw is.front_first

-- `queue_size` is the length of the list.
pub queue_size-IsQueue :
    (h : Heap) (q : Queue) (cs : Cells) → IsQueue h q cs → queue_size (live q) ≡ some (length cs)
unfolding queue_size
queue_size-IsQueue h q cs is = ap some is.size_length
