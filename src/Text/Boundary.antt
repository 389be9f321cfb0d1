-- ===== src/Text/Boundary.antt =====
-- InsertIn as a whole: its guards, and the insertion at any index of the text.
use cert_yjs.Base.{
  ℕ, ◌+◌, ◌≤◌, ◌<◌, ◌≡◌, refl, ap, ◌∙◌, true, false, none, List, ◌++◌, All, length, take, drop,
  take-append-drop, u64_mod, add64, add64_lem, ltb, lt→ltb, if◌then◌else◌, arith, done, ◌>>=◌,
}
use cert_yjs.Item.{Ptr, TypePtr}
use cert_yjs.YType.{find_pos, text}
use cert_yjs.YType.Chain.{visible, text-visible}
use cert_yjs.YType.Links.{head_or, last_or}
use cert_yjs.YType.Same.{visible-append}
use cert_yjs.YType.Valid.{IsText, IsText-IsList}
use cert_yjs.Store.{Store}
use cert_yjs.Transaction.{Transaction}
use cert_yjs.Text.{id_of, normalize, insert_loop, refuses, insert_in}
use cert_yjs.Text.Insert.{Fills, insert_loop-Fills}
use cert_yjs.Text.Place.{Splittable, Normalized, normalize-Normalized}

insert_in_lem :
    (tr : Transaction) (t : TypePtr) (index : ℕ) (content : List ℕ)
    → insert_in tr t index content ≡ (
        if refuses tr.store t index content
        then done tr
        else (find_pos tr.store.heap t index >>= λ pos.
            normalize tr.store pos.0 pos.1 pos.2 >>= λ place.
            insert_loop
              (record tr { store = place.2 })
              t
              content
              place.0
              place.1
              (id_of place.2.heap place.1)))
unfolding insert_in
insert_in_lem tr t index content = refl

refuses_lem :
    (s : Store) (t : TypePtr) (index : ℕ) (content : List ℕ)
    → refuses s t index content ≡ (
        if ltb (s.heap.type_at t).len index
        then true
        else ltb (add64 s.clock (length content)) s.clock)
unfolding refuses
refuses_lem s t index content = refl

-- What an insertion leaves behind: a text again, which reads as the old one with the new units
-- at the index.
pub record Inserts (tr : Transaction) (t : TypePtr) (units : List ℕ) (index : ℕ) (content : List ℕ)
    : Type 0 where
  pub tr' : Transaction
  pub qs : List Ptr
  pub runs : insert_in tr t index content ≡ done tr'
  pub valid : IsText tr'.store.heap t qs
  pub reads : text tr'.store.heap t ≡ done (take index units ++ (content ++ drop index units))

add64_wraps : (a b : ℕ) → a < u64_mod → b < u64_mod → u64_mod ≤ a + b → add64 a b < a
unfolding add64
add64_wraps a b la lb le = omega arith

-- Where the clock and the length of the content fit 64 bits, and their sum does not, InsertIn
-- changes nothing, whatever the text and the index.
pub insert_in-overflow :
    (tr : Transaction) (t : TypePtr) (index : ℕ) (content : List ℕ)
    → tr.store.clock < u64_mod
    → length content < u64_mod
    → u64_mod ≤ tr.store.clock + length content
    → insert_in tr t index content ≡ done tr
insert_in-overflow tr t index content c l o =
    let wraps = add64_wraps tr.store.clock (length content) c l o in
    let guard : refuses tr.store t index content ≡ true =
      refuses_lem tr.store t index content ∙ ground (arith, wraps) in
    insert_in_lem tr t index content ∙ rw guard

module _ (tr : Transaction) (t : TypePtr) (index : ℕ) (content : List ℕ) (ps : List Ptr)
    (v : IsText tr.store.heap t ps) where
  -- An index past the end of the text: InsertIn changes nothing.
  pub insert_in-past :
      length (visible tr.store.heap ps) < index → insert_in tr t index content ≡ done tr
  insert_in-past lt =
      let far : ltb (tr.store.heap.type_at t).len index ≡ true =
        lt→ltb _ _ (omega (arith, v.len)) in
      insert_in_lem tr t index content ∙ rw (refuses_lem, far)

  module _ (le : index ≤ length (visible tr.store.heap ps))
      (clock : tr.store.clock + length content < u64_mod)
      (small : length (visible tr.store.heap ps) + length content < u64_mod) where
    accepts : refuses tr.store t index content ≡ false
    accepts =
        refuses_lem tr.store t index content
        ∙ rw (v.len, add64_lem tr.store.clock (length content) clock) (ground arith)

    insert_in-loop :
        (m : Normalized tr.store t ps index)
        → insert_in tr t index content
          ≡ insert_loop
              (record tr { store = m.s' })
              t
              content
              (last_or none m.front)
              (head_or m.back none)
              (id_of m.s'.heap (head_or m.back none))
    insert_in-loop m = insert_in_lem tr t index content ∙ rw (accepts, m.found, m.placed)

    same_length :
        (m : Normalized tr.store t ps index)
        → length (visible m.s'.heap (m.front ++ m.back)) ≡ length (visible tr.store.heap ps)
    same_length m = ap length (
        visible-append m.s'.heap m.front m.back
        ∙ rw (m.before, m.after) (take-append-drop index (visible tr.store.heap ps)))

    Normalized-Inserts :
        (m : Normalized tr.store t ps index)
        → Fills
            (record tr { store = m.s' })
            t
            m.front
            m.back
            content
            (id_of m.s'.heap (head_or m.back none))
        → Inserts tr t (visible tr.store.heap ps) index content
    Normalized-Inserts m (ns, tr', run, f) = record {
      tr' = tr';
      qs = m.front ++ (ns ++ m.back);
      runs = insert_in-loop m ∙ run;
      valid = f.text;
      reads =
          text-visible tr'.store.heap t (m.front ++ (ns ++ m.back)) (IsText-IsList f.text)
          ∙ ap done (
              f.reads
              ∙ ap (λ l. l ++ (content ++ visible m.s'.heap m.back)) m.before
              ∙ ap (λ l. take index (visible tr.store.heap ps) ++ (content ++ l)) m.after);
    }

    -- InsertIn on a text whose items can be split, at an index within it, with room in the
    -- counters: it ends, and the text reads as before with the content at the index.
    pub insert_in-Inserts :
        All (Splittable tr.store) ps → Inserts tr t (visible tr.store.heap ps) index content
    insert_in-Inserts all =
        let m = normalize-Normalized tr.store t ps index v all le (omega arith) in
        Normalized-Inserts m (
          insert_loop-Fills (record tr { store = m.s' }) t content m.front m.back _ m.text
            (omega (arith, same_length m)))
