-- ===== src/Wire/Items.antt =====
-- Joining a client's items in runs does not show: a replica decodes the items one by one.
use cert_yjs.Base.{
  ℕ, zero, suc, ◌+◌, ◌≤◌, ◌<◌, ◌==◌, ◌≡◌, refl, ap, sym, ◌∙◌, add64, sub64, u64_mod, arith, true,
  false, Option, none, some, List, [], ◌∷◌, ◌++◌, append_assoc, All, length, length-append,
}
use cert_yjs.Ident.{ItemId, new_id}
use cert_yjs.Ident.Laws.{equal_iff, id_opt_equal_iff}
use cert_yjs.Item.{Ptr, len, last_id}
use cert_yjs.Heap.{Heap}
use cert_yjs.Update.{GoString, UpdateItem}
use cert_yjs.Wire.Encode.{joinable, run_units, points_at_id}
use cert_yjs.Wire.Decode.{DecodedStruct, unit_update, head_parent}
use cert_yjs.Wire.Runs.{unit_updates, IsRun}
use cert_yjs.Wire.Structs.{run_struct}

-- The struct that one item alone would be written as, and the updates that come of it.
abbrev pub item_struct : Heap → (ItemId → GoString) → Ptr → DecodedStruct
item_struct h name p =
    let it = h.item_at p in run_struct it (name it.id) it.id.client_id it.id.clock it.content

abbrev pub item_updates : Heap → (ItemId → GoString) → List Ptr → List UpdateItem
item_updates h name [] = []
item_updates h name (p ∷ ps) =
    unit_updates (item_struct h name p) 0 (h.item_at p).content ++ item_updates h name ps

pub item_updates-append :
    (h : Heap) (name : ItemId → GoString) (ps qs : List Ptr)
    → item_updates h name (ps ++ qs) ≡ item_updates h name ps ++ item_updates h name qs
item_updates-append h name [] qs = refl
item_updates-append h name (p ∷ ps) qs =
    ap (λ l. unit_updates (item_struct h name p) 0 (h.item_at p).content ++ l)
      (item_updates-append h name ps qs)
    ∙ sym (append_assoc (unit_updates (item_struct h name p) 0 (h.item_at p).content) _ _)

unit_updates-append :
    (ds : DecodedStruct) (j : ℕ) (us vs : List ℕ)
    → unit_updates ds j (us ++ vs) ≡ unit_updates ds j us ++ unit_updates ds (j + length us) vs
unit_updates-append ds j [] vs = ap (λ k. unit_updates ds k vs) (omega arith)
unit_updates-append ds j (u ∷ us) vs =
    ap (λ l. unit_update ds j u ∷ l)
      (unit_updates-append ds (suc j) us vs
        ∙ ap (λ k. unit_updates ds (suc j) us ++ unit_updates ds k vs) (omega arith))

-- The item with the struct `qs` goes on with the struct `ds` at its unit `k`.
record Continues (ds qs : DecodedStruct) (k : ℕ) : Type 0 where
  later : 0 < k
  client : qs.id.client_id ≡ ds.id.client_id
  clock : qs.id.clock ≡ add64 ds.id.clock k
  left : qs.origin_left_id ≡ some (new_id ds.id.client_id (add64 ds.id.clock (sub64 k 1)))
  right : qs.origin_right_id ≡ ds.origin_right_id

zero_add : (n : ℕ) → 0 + n ≡ n
zero_add n = omega arith

pub add64-add64 : (a b c : ℕ) → add64 (add64 a b) c ≡ add64 a (b + c)
unfolding add64
add64-add64 a b c = omega arith

UpdateItem-path :
    (i i' : ItemId) (l l' r r' : Option ItemId) (n n' : Option GoString) (u : ℕ)
    → i ≡ i'
    → l ≡ l'
    → r ≡ r'
    → n ≡ n'
    → ◌≡◌ {A = UpdateItem}
        (record {
          id = i;
          origin_left_id = l;
          origin_right_id = r;
          parent_name = n;
          content = u ∷ [];
        })
        (record {
          id = i';
          origin_left_id = l';
          origin_right_id = r';
          parent_name = n';
          content = u ∷ [];
        })
UpdateItem-path i i' l l' r r' n n' u a b c d = λ x. record {
  id = a x;
  origin_left_id = b x;
  origin_right_id = c x;
  parent_name = d x;
  content = u ∷ [];
}

no_parent : (ds : DecodedStruct) (i : ItemId) → ds.origin_left_id ≡ some i → head_parent ds ≡ none
unfolding head_parent
no_parent ds i e = rw e refl

new_id-path : (a b x y : ℕ) → a ≡ b → x ≡ y → new_id a x ≡ new_id b y
new_id-path a b x y e f = λ i. new_id (e i) (f i)

-- The clock of the unit before.
before_unit : (k i : ℕ) → k + suc i < u64_mod → k + sub64 (suc i) 1 ≡ sub64 (k + suc i) 1
unfolding sub64
before_unit k i b = omega arith

module _ (ds qs : DecodedStruct) (k : ℕ) (c : Continues ds qs k) where
  same_clock :
      (n m : ℕ)
      → k + n ≡ m
      → new_id ds.id.client_id (add64 ds.id.clock m) ≡ new_id qs.id.client_id (add64 qs.id.clock n)
  same_clock n m e = new_id-path _ _ _ _ (sym c.client) (
      ap (add64 ds.id.clock) (sym e)
      ∙ sym (ap (λ x. add64 x n) c.clock ∙ add64-add64 ds.id.clock k n))

  same_unit : (i u : ℕ) → k + i < u64_mod → unit_update ds (k + i) u ≡ unit_update qs i u
  unfolding unit_update
  same_unit zero u small =
      let away : (k + 0 == 0) ≡ false = ground (arith, c.later) in
      let here : k + 0 ≡ k = omega arith in
      UpdateItem-path _ _ _ _ _ _ _ _ u (same_clock 0 (k + 0) refl) (rw (away, here) (sym c.left))
        (sym c.right) (rw away (sym (no_parent qs _ c.left)))
  same_unit (suc i) u small =
      let away : (k + suc i == 0) ≡ false = ground (arith, c.later) in
      let next : (suc i == 0) ≡ false = ground arith in
      UpdateItem-path _ _ _ _ _ _ _ _ u (same_clock (suc i) (k + suc i) refl)
        (rw (away, next)
          (ap some (same_clock (sub64 (suc i) 1) (sub64 (k + suc i) 1) (before_unit k i small))))
        (sym c.right) (rw (away, next) refl)

  same_units :
      (i : ℕ) (us : List ℕ)
      → k + i + length us ≤ u64_mod
      → unit_updates ds (k + i) us ≡ unit_updates qs i us
  same_units i [] small = refl
  same_units i (u ∷ us) small =
      ap (λ x. x ∷ unit_updates ds (suc (k + i)) us) (same_unit i u (omega arith))
      ∙ ap (λ n. unit_update qs i u ∷ unit_updates ds n us) (omega arith)
      ∙ ap (λ l. unit_update qs i u ∷ l) (same_units (suc i) us (omega arith))

-- The next item of a run goes on where the one before it ends.
abbrev pub Holding : Heap → Ptr → Type 0
Holding h p = 0 < len (h.item_at p)

record Joined (h : Heap) (p q : Ptr) : Type 0 where
  client : (h.item_at q).id.client_id ≡ (h.item_at p).id.client_id
  clock : (h.item_at q).id.clock ≡ add64 (h.item_at p).id.clock (len (h.item_at p))
  left : (h.item_at q).origin_left_id ≡ some (last_id (h.item_at p))
  right : (h.item_at q).origin_right_id ≡ (h.item_at p).origin_right_id

points_at_id_lem : (o : Option ItemId) (i : ItemId) → points_at_id o i ≡ true → o ≡ some i
points_at_id_lem none i e = absurd (cc)
points_at_id_lem (some j) i e = ap some ((equal_iff j i).0 e)

joinable-Joined : (h : Heap) (p q : Ptr) → joinable h p q ≡ true → Joined h p q
unfolding joinable
joinable-Joined h p q e =
    let a = h.item_at p in
    let b = h.item_at q in
    record {
      client = ground arith;
      clock = ground arith;
      left = points_at_id_lem b.origin_left_id (last_id a) (ground arith);
      right = sym ((id_opt_equal_iff a.origin_right_id b.origin_right_id).0 (ground arith));
    }

last_clock_from : (a k n : ℕ) → 0 < n → sub64 (add64 (add64 a k) n) 1 ≡ add64 a (sub64 (k + n) 1)
unfolding add64 sub64
last_clock_from a k n pos = omega arith

last_clock_of : (a n : ℕ) → 0 < n → sub64 (add64 a n) 1 ≡ add64 a (sub64 n 1)
unfolding add64 sub64
last_clock_of a n pos = omega arith

module _ (h : Heap) (name : ItemId → GoString) where
  Continues-first :
      (p q : Ptr) (ds : DecodedStruct)
      → Holding h p
      → Joined h p q
      → ds.id ≡ (h.item_at p).id
      → ds.origin_right_id ≡ (h.item_at p).origin_right_id
      → Continues ds (item_struct h name q) (len (h.item_at p))
  unfolding last_id new_id
  Continues-first p q ds pos j i r = record {
    later = pos;
    client = j.client ∙ ap (λ (x : ItemId). x.client_id) (sym i);
    clock = j.clock ∙ ap (λ (x : ItemId). add64 x.clock (len (h.item_at p))) (sym i);
    left =
        j.left
        ∙ ap some (
            new_id-path _ _ _ _ (ap (λ (x : ItemId). x.client_id) (sym i)) (
              last_clock_of (h.item_at p).id.clock (len (h.item_at p)) pos
              ∙ ap (λ (x : ItemId). add64 x.clock (sub64 (len (h.item_at p)) 1)) (sym i)));
    right = j.right ∙ sym r;
  }

  Continues-next :
      (p q : Ptr) (ds : DecodedStruct) (k : ℕ)
      → Holding h p
      → Joined h p q
      → Continues ds (item_struct h name p) k
      → Continues ds (item_struct h name q) (k + len (h.item_at p))
  unfolding last_id new_id
  Continues-next p q ds k pos j c =
      let n = len (h.item_at p) in
      record {
        later = omega (arith, pos);
        client = j.client ∙ c.client;
        clock = j.clock ∙ ap (λ x. add64 x n) c.clock ∙ add64-add64 ds.id.clock k n;
        left =
            j.left
            ∙ ap some (
                new_id-path _ _ _ _ c.client
                  (ap (λ x. sub64 (add64 x n) 1) c.clock ∙ last_clock_from ds.id.clock k n pos));
        right = j.right ∙ c.right;
      }

  -- The struct of a run with the head `p`.
  abbrev pub head_struct : Ptr → List ℕ → DecodedStruct
  head_struct p units =
      let it = h.item_at p in run_struct it (name it.id) it.id.client_id it.id.clock units

  run_units_lem :
      (p : Ptr) (ps : List Ptr) → run_units h (p ∷ ps) ≡ (h.item_at p).content ++ run_units h ps
  unfolding run_units
  run_units_lem p ps = refl

  run_units_nil : run_units h [] ≡ []
  unfolding run_units
  run_units_nil = refl

  -- A run's units, the first item's apart.
  apart :
      (ds : DecodedStruct) (k : ℕ) (p : Ptr) (ps : List Ptr)
      → unit_updates ds k (run_units h (p ∷ ps))
        ≡ unit_updates ds k (h.item_at p).content
          ++ unit_updates ds (k + len (h.item_at p)) (run_units h ps)
  apart ds k p ps =
      ap (unit_updates ds k) (run_units_lem p ps)
      ∙ unit_updates-append ds k (h.item_at p).content (run_units h ps)

  run_length :
      (p : Ptr) (ps : List Ptr)
      → length (run_units h (p ∷ ps)) ≡ len (h.item_at p) + length (run_units h ps)
  run_length p ps =
      ap length (run_units_lem p ps) ∙ length-append (h.item_at p).content (run_units h ps)

  first_item :
      (ds : DecodedStruct) (k : ℕ) (p : Ptr) (ps : List Ptr)
      → Continues ds (item_struct h name p) k
      → k + length (run_units h (p ∷ ps)) ≤ u64_mod
      → unit_updates ds k (h.item_at p).content
        ≡ unit_updates (item_struct h name p) 0 (h.item_at p).content
  first_item ds k p ps c small =
      ap (λ n. unit_updates ds n (h.item_at p).content) (omega arith)
      ∙ same_units ds (item_struct h name p) k c 0 (h.item_at p).content
          (omega (arith, small, run_length p ps))

  -- The items of a run from one on that goes on with the struct.
  run_updates-later :
      (ds : DecodedStruct) (k : ℕ) (p : Ptr) (ps : List Ptr)
      → IsRun h (p ∷ ps)
      → All (Holding h) (p ∷ ps)
      → Continues ds (item_struct h name p) k
      → k + length (run_units h (p ∷ ps)) ≤ u64_mod
      → unit_updates ds k (run_units h (p ∷ ps)) ≡ item_updates h name (p ∷ ps)
  run_updates-later ds k p [] r x c small =
      apart ds k p []
      ∙ ap
          (λ us.
            unit_updates ds k (h.item_at p).content ++ unit_updates ds (k + len (h.item_at p)) us)
          run_units_nil
      ∙ ap (λ l. l ++ []) (first_item ds k p [] c small)
  run_updates-later ds k p (q ∷ ps) (j, r) (pos, x) c small =
      let next = Continues-next p q ds k pos (joinable-Joined h p q j) c in
      apart ds k p (q ∷ ps)
      ∙ ap (λ l. l ++ unit_updates ds (k + len (h.item_at p)) (run_units h (q ∷ ps)))
          (first_item ds k p (q ∷ ps) c small)
      ∙ ap (λ l. unit_updates (item_struct h name p) 0 (h.item_at p).content ++ l)
          (run_updates-later ds (k + len (h.item_at p)) q ps r x next
            (omega (arith, small, run_length p (q ∷ ps))))

  -- What the units of a struct become does not depend on the units that it has in all.
  head_updates :
      (p : Ptr) (units units' : List ℕ) (j : ℕ) (us : List ℕ)
      → unit_updates (head_struct p units) j us ≡ unit_updates (head_struct p units') j us
  unfolding unit_update
  head_updates p units units' j [] = refl
  head_updates p units units' j (u ∷ us) =
      ap (λ l. unit_update (head_struct p units') j u ∷ l) (head_updates p units units' (suc j) us)

  -- A run is decoded as its items are.
  pub run_struct-updates :
      (p : Ptr) (ps : List Ptr)
      → IsRun h (p ∷ ps)
      → All (Holding h) (p ∷ ps)
      → length (run_units h (p ∷ ps)) ≤ u64_mod
      → unit_updates (head_struct p (run_units h (p ∷ ps))) 0 (run_units h (p ∷ ps))
        ≡ item_updates h name (p ∷ ps)
  run_struct-updates p [] r x small =
      apart (head_struct p (run_units h (p ∷ []))) 0 p []
      ∙ ap
          (λ us.
            unit_updates (head_struct p (run_units h (p ∷ []))) 0 (h.item_at p).content
            ++ unit_updates (head_struct p (run_units h (p ∷ []))) (0 + len (h.item_at p)) us)
          run_units_nil
      ∙ ap (λ l. l ++ [])
          (head_updates p (run_units h (p ∷ [])) (h.item_at p).content 0 (h.item_at p).content)
  run_struct-updates p (q ∷ ps) (j, r) (pos, x) small =
      let ds = head_struct p (run_units h (p ∷ q ∷ ps)) in
      let n = len (h.item_at p) in
      let next =
        Continues-first p q ds pos (joinable-Joined h p q j) (unfold new_id in refl) refl in
      let rest =
        run_updates-later ds n q ps r x next (omega (arith, small, run_length p (q ∷ ps))) in
      let own = unit_updates (item_struct h name p) 0 (h.item_at p).content in
      apart ds 0 p (q ∷ ps)
      ∙ ap (λ l. l ++ unit_updates ds (0 + n) (run_units h (q ∷ ps)))
          (head_updates p (run_units h (p ∷ q ∷ ps)) (h.item_at p).content 0 (h.item_at p).content)
      ∙ ap (λ m. own ++ unit_updates ds m (run_units h (q ∷ ps))) (zero_add n)
      ∙ ap (λ l. own ++ l) rest
