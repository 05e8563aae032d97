-- ===== src/Bulk/InShift.antt =====
-- Requests of `run_bulk_in_worker` of src/usbip_server/mod.rs that go from those pending to those
-- answered.
use lusbip.Base.{
  ℕ, ◌+◌, ◌≡◌, refl, ap, subst, ◌∙◌, Bool, true, false, ◌&&◌, List, [], ◌∷◌, ◌++◌, map, append-nil,
  append_assoc, none, some, ◌==◌, if◌then◌else◌, contains, lookup, arith,
}
use mathlib.Core.List.{map-append}
use lusbip.Bulk.Pending.{
  next, unlink, should_submit_bulk_in_after_barrier, count, count-unlink, contains-count,
}
use lusbip.Bulk.InWorker.{BulkInRequest, BulkInEvent, BulkInWorker}
use lusbip.Bulk.InTrace.{answered, Tracked}
use lusbip.Bulk.InOrder.{Sub, Sub-refl, Sub-trans, Sub-append, Sub-widen, unlink-Sub, count-append}

-- From `w` to `t`, `new` requests come in and `gone` are withdrawn: the numbers answered or pending
-- before and the new ones are those answered, pending or withdrawn after, and in the same order.
pub record Moves (w t : BulkInWorker) (new gone : List ℕ) : Type 0 where
  pub counted :
      (k : ℕ)
      → count k (answered t) + count k t.pending + count k gone
        ≡ count k (answered w) + count k w.pending + count k new
  pub ordered : Sub (answered t ++ t.pending) ((answered w ++ w.pending) ++ new)

pub Moves-trans :
    {w t u : BulkInWorker} {new new2 gone gone2 : List ℕ}
    → Moves w t new gone
    → Moves t u new2 gone2
    → Moves w u (new ++ new2) (gone ++ gone2)
Moves-trans {w} {t} {u} {new} {new2} {gone} {gone2} f g = record {
  counted = λ k.
      ground (arith, f.counted k, g.counted k, count-append k new new2, count-append k gone gone2);
  ordered = Sub-trans g.ordered (
      subst (λ l. Sub ((answered t ++ t.pending) ++ new2) l)
        (append_assoc (answered w ++ w.pending) new new2) (Sub-widen new2 f.ordered));
}

-- Nothing moves.
pub still : (w t : BulkInWorker) → t.events ≡ w.events → t.pending ≡ w.pending → Moves w t [] []
still w t e p = record {
  counted = λ k. rw (e, p) refl;
  ordered = rw (e, p, append-nil (answered w ++ w.pending)) (Sub-refl (answered w ++ w.pending));
}

pub count_none : (k : ℕ) → count k [] ≡ 0
unfolding count
count_none k = refl

pub count_one : (k s : ℕ) → count k (s ∷ []) ≡ (if s == k then 1 else 0)
unfolding count
count_one k s = ground arith

pub count_cons : (k s : ℕ) (ss : List ℕ) → count k (s ∷ ss) ≡ (if s == k then 1 else 0) + count k ss
unfolding count
count_cons k s ss = refl

pub count_withdrawn :
    (k : ℕ) (b : Bool) (s : ℕ) → count k (if b then s ∷ [] else []) ≡ (if b && s == k then 1 else 0)
unfolding count
count_withdrawn k true s = ground arith
count_withdrawn k false s = refl

pub next-contains : (s : ℕ) (ss : List ℕ) → next ss ≡ none → contains s ss ≡ false
unfolding next contains
next-contains s [] h = refl
next-contains s (x ∷ xs) h = absurd (cc h)

-- A last stretch that brings and withdraws nothing.
pub Moves-end :
    {w t u : BulkInWorker} {new gone : List ℕ}
    → Moves w t new gone
    → Moves t u [] []
    → Moves w u new gone
Moves-end {w} {t} {u} {new} {gone} f g =
    subst (λ l. Moves w u l gone) (append-nil new)
      (subst (λ l. Moves w u (new ++ []) l) (append-nil gone) (Moves-trans f g))

pub head-unlink :
    (s : ℕ) (ss : List ℕ) → should_submit_bulk_in_after_barrier ss s ≡ true → s ∷ unlink ss s ≡ ss
unfolding should_submit_bulk_in_after_barrier unlink
head-unlink s [] h = absurd (cc h)
head-unlink s (x ∷ xs) h = ground arith

-- The first request is answered.
pub retire :
    (s : ℕ) (w t : BulkInWorker)
    → should_submit_bulk_in_after_barrier w.pending s ≡ true
    → answered t ≡ answered w ++ s ∷ []
    → t.pending ≡ unlink w.pending s
    → Moves w t [] []
retire s w t first e p = record {
  counted = λ k.
      rw (e, p)
        (ground (
          arith,
          count-append k (answered w) (s ∷ []),
          count_one k s,
          ap (count k) (head-unlink s w.pending first),
          count_cons k s (unlink w.pending s),
        ));
  ordered =
      rw
        (
          e,
          p,
          append_assoc (answered w) (s ∷ []) (unlink w.pending s),
          head-unlink s w.pending first,
          append-nil (answered w ++ w.pending),
        )
        (Sub-refl (answered w ++ w.pending));
}

-- A request that is not pending is dropped.
pub drop_absent :
    (s : ℕ) (w t : BulkInWorker)
    → contains s w.pending ≡ false
    → t.events ≡ w.events
    → t.pending ≡ unlink w.pending s
    → Moves w t [] []
drop_absent s w t out e p = record {
  counted = λ k. rw (e, p) (ground (arith, out, count-unlink k s w.pending));
  ordered =
      rw (e, p, append-nil (answered w ++ w.pending))
        (Sub-append (answered w) (unlink-Sub w.pending s));
}

-- A pending request is known, and a known one pending.
pub none-pending :
    (s : ℕ) (w : BulkInWorker)
    → Tracked s w
    → lookup s w.requests ≡ none
    → contains s w.pending ≡ false
none-pending s w v e = ground (arith, v, e, contains-count s w.pending)

pub some-pending :
    (s : ℕ) (r : BulkInRequest) (w : BulkInWorker)
    → Tracked s w
    → lookup s w.requests ≡ some r
    → contains s w.pending ≡ true
some-pending s r w v e = ground (arith, v, e, contains-count s w.pending)

pub events-push :
    (s : ℕ) (w : BulkInWorker) (e : BulkInEvent)
    → e.seqnum ≡ s
    → map (λ x. x.seqnum) (w.events ++ e ∷ []) ≡ answered w ++ s ∷ []
events-push s w e h = map-append (λ x. x.seqnum) w.events (e ∷ []) ∙ rw h refl
