-- ===== src/ChatHistory/Flush.antt =====
-- Writing the history to the database, whose statements are an argument. Preparing a statement,
-- binding its values, and running it is one operation, which fails when one of them does.
use mathlib.Core.List.{append-nil, append_assoc}
use shroomio.Base.{
  ◌⊎◌, ◌<◌, ltb→lt, ℕ, ◌≡◌, ◌≢◌, refl, sym, ap, subst, ◌∙◌, Bool, true, false, ◌||◌, not, Option,
  none, some, List, [], ◌∷◌, ◌++◌, inl, inr, Bool-cases, ltb, if◌then◌else◌, sub64,
}
use shroomio.ChatHistory.{Message, History, flush_interval_ms}

pub record Statements (D : Type 0) : Type 0 where
  pub begin : D → D × Bool
  pub delete_rows : D → ℕ → D × Bool
  pub insert : D → ℕ → Message → D × Bool
  pub commit : D → D × Bool
  pub rollback : D → D × Bool

module _ {D : Type 0} (sql : Statements D) where
  unfoldable pub insert_all : D → ℕ → List Message → D × Bool
  insert_all d identity [] = (d, true)
  insert_all d identity (m ∷ ms) =
      let (e, inserted) = sql.insert d identity m in
      let rest = insert_all e identity ms in if inserted then rest else (e, false)

  -- What a statement that fails inside the transaction leaves.
  abbrev pub give_up : D → History → D × History × Bool
  give_up d h = ((sql.rollback d).0, h, false)

  unfoldable pub write : D → History → ℕ → D × History × Bool
  write d h now_ms =
      let (d1, begun) = sql.begin d in
      let (d2, deleted) = sql.delete_rows d1 h.identity in
      let (d3, inserted) = insert_all d2 h.identity h.messages in
      let (d4, committed) = sql.commit d3 in
      if not begun
      then (d1, h, false)
      else if not deleted
      then give_up d2 h
      else if not inserted
      then give_up d3 h
      else if not committed
      then give_up d4 h
      else (d4, record h { dirty = false; last_flush_ms = now_ms }, true)

  unfoldable pub flush : Option D → History → ℕ → Option D × History × Bool
  flush none h now_ms = (none, h, true)
  flush (some d) h now_ms =
      let (e, k, ok) = write d h now_ms in
      if not h.dirty then (some d, h, true) else (some e, k, ok)

  unfoldable pub flush_if_due : Option D → History → ℕ → Option D × History × Bool
  flush_if_due db h now_ms =
      if not h.dirty || ltb (sub64 now_ms h.last_flush_ms) flush_interval_ms
      then (db, h, true)
      else flush db h now_ms

  -- What SQLite says of a transaction: the rows that are durable change only when it is committed,
  -- to those that it sees.
  pub record Laws : Type 0 where
    pub durable : D → ℕ → List Message
    pub pending : D → ℕ → List Message
    pub begin-durable : (d : D) (i : ℕ) → durable (sql.begin d).0 i ≡ durable d i
    pub begin-pending :
        (d : D) (i : ℕ) → (sql.begin d).1 ≡ true → pending (sql.begin d).0 i ≡ durable d i
    pub delete-durable : (d : D) (k i : ℕ) → durable (sql.delete_rows d k).0 i ≡ durable d i
    pub delete-pending :
        (d : D) (k : ℕ) → (sql.delete_rows d k).1 ≡ true → pending (sql.delete_rows d k).0 k ≡ []
    pub delete-others :
        (d : D) (k i : ℕ)
        → (sql.delete_rows d k).1 ≡ true
        → i ≢ k
        → pending (sql.delete_rows d k).0 i ≡ pending d i
    pub insert-durable :
        (d : D) (k i : ℕ) (m : Message) → durable (sql.insert d k m).0 i ≡ durable d i
    pub insert-pending :
        (d : D) (k : ℕ) (m : Message)
        → (sql.insert d k m).1 ≡ true
        → pending (sql.insert d k m).0 k ≡ pending d k ++ m ∷ []
    pub insert-others :
        (d : D) (k i : ℕ) (m : Message)
        → (sql.insert d k m).1 ≡ true
        → i ≢ k
        → pending (sql.insert d k m).0 i ≡ pending d i
    pub commit-durable :
        (d : D) (i : ℕ) → (sql.commit d).1 ≡ true → durable (sql.commit d).0 i ≡ pending d i
    pub commit-failed :
        (d : D) (i : ℕ) → (sql.commit d).1 ≡ false → durable (sql.commit d).0 i ≡ durable d i
    pub rollback-durable : (d : D) (i : ℕ) → durable (sql.rollback d).0 i ≡ durable d i

  module _ (law : Laws) where
    insert_all-durable :
        (d : D) (k i : ℕ) (ms : List Message)
        → law.durable (insert_all d k ms).0 i ≡ law.durable d i
    unfolding insert_all
    insert_all-durable d k i [] = refl
    insert_all-durable d k i (m ∷ ms) = elim (Bool-cases (sql.insert d k m).1) [
      | inl ok ↦ rw ok (insert_all-durable (sql.insert d k m).0 k i ms ∙ law.insert-durable d k i m)
      | inr bad ↦ rw bad (law.insert-durable d k i m)
    ]

    insert_all-pending :
        (d : D) (k : ℕ) (ms : List Message)
        → (insert_all d k ms).1 ≡ true
        → law.pending (insert_all d k ms).0 k ≡ law.pending d k ++ ms
    unfolding insert_all
    insert_all-pending d k [] = λ ok. sym (append-nil (law.pending d k))
    insert_all-pending d k (m ∷ ms) = elim (Bool-cases (sql.insert d k m).1) [
      | inl ok ↦ rw ok (λ all.
          insert_all-pending (sql.insert d k m).0 k ms all
          ∙ ap (λ xs. xs ++ ms) (law.insert-pending d k m ok)
          ∙ append_assoc (law.pending d k) (m ∷ []) ms)
      | inr bad ↦ rw bad (λ all. cc)
    ]

    insert_all-others :
        (d : D) (k i : ℕ) (ms : List Message)
        → (insert_all d k ms).1 ≡ true
        → i ≢ k
        → law.pending (insert_all d k ms).0 i ≡ law.pending d i
    unfolding insert_all
    insert_all-others d k i [] = λ ok ne. refl
    insert_all-others d k i (m ∷ ms) = elim (Bool-cases (sql.insert d k m).1) [
      | inl ok ↦ rw ok (λ all ne.
          insert_all-others (sql.insert d k m).0 k i ms all ne ∙ law.insert-others d k i m ok ne)
      | inr bad ↦ rw bad (λ all. cc)
    ]

    -- What a call leaves: it had nothing to do yet, or wrote all, or nothing.
    pub data Flushed (d : D) (h : History) (now_ms : ℕ) (out : Option D × History × Bool)
        : Type 0 where
      skipped :
          (h.dirty ≡ false) ⊎ (sub64 now_ms h.last_flush_ms < flush_interval_ms)
          → out ≡ (some d, h, true)
          → Flushed d h now_ms out
      all :
          (e : D)
          → out ≡ (some e, record h { dirty = false; last_flush_ms = now_ms }, true)
          → law.durable e h.identity ≡ h.messages
          → ((i : ℕ) → i ≢ h.identity → law.durable e i ≡ law.durable d i)
          → Flushed d h now_ms out
      none_ :
          (e : D)
          → out ≡ (some e, h, false)
          → ((i : ℕ) → law.durable e i ≡ law.durable d i)
          → Flushed d h now_ms out

    write-Flushed :
        (d : D) (h : History) (now_ms : ℕ)
        → let (e, k, ok) = write d h now_ms in Flushed d h now_ms (some e, k, ok)
    unfolding write
    write-Flushed d h now_ms =
        let d1 : D = (sql.begin d).0 in
        let d2 : D = (sql.delete_rows d1 h.identity).0 in
        let d3 : D = (insert_all d2 h.identity h.messages).0 in
        let d4 : D = (sql.commit d3).0 in
        let s1 : (i : ℕ) → law.durable d1 i ≡ law.durable d i = λ i. law.begin-durable d i in
        let s2 : (i : ℕ) → law.durable d2 i ≡ law.durable d i =
          λ i. law.delete-durable d1 h.identity i ∙ s1 i in
        let s3 : (i : ℕ) → law.durable d3 i ≡ law.durable d i =
          λ i. insert_all-durable d2 h.identity i h.messages ∙ s2 i in
        elim (Bool-cases (sql.begin d).1) [
          | inr bad ↦ rw bad (none_ d1 refl s1)
          | inl begun ↦ rw begun (elim (Bool-cases (sql.delete_rows d1 h.identity).1) [
            | inr bad ↦
                rw bad (none_ (sql.rollback d2).0 refl (λ i. law.rollback-durable d2 i ∙ s2 i))
            | inl deleted ↦ rw deleted (elim (Bool-cases (insert_all d2 h.identity h.messages).1) [
              | inr bad ↦
                  rw bad (none_ (sql.rollback d3).0 refl (λ i. law.rollback-durable d3 i ∙ s3 i))
              | inl inserted ↦ rw inserted (elim (Bool-cases (sql.commit d3).1) [
                | inr bad ↦ rw bad (
                    none_ (sql.rollback d4).0 refl
                      (λ i. law.rollback-durable d4 i ∙ law.commit-failed d3 i bad ∙ s3 i))
                | inl committed ↦ rw committed (
                    all d4 refl
                      (law.commit-durable d3 h.identity committed
                        ∙ insert_all-pending d2 h.identity h.messages inserted
                        ∙ ap (λ xs. xs ++ h.messages) (law.delete-pending d1 h.identity deleted))
                      (λ i ne.
                        law.commit-durable d3 i committed
                        ∙ insert_all-others d2 h.identity i h.messages inserted ne
                        ∙ law.delete-others d1 h.identity i deleted ne
                        ∙ law.begin-pending d i begun))
              ])
            ])
          ])
        ]

    -- A call for a database either has nothing to do, because nothing is new or the last write was
    -- less than the interval ago, and does nothing; or it writes the whole history in place of what
    -- the database had of it and of no other, and records that; or it fails, and leaves the
    -- history, still to be written, and what is durable in the database as they were.
    pub flush_if_due-Flushed :
        (d : D) (h : History) (now_ms : ℕ) → Flushed d h now_ms (flush_if_due (some d) h now_ms)
    unfolding flush_if_due flush
    flush_if_due-Flushed d h now_ms = elim (Bool-cases h.dirty) [
      | inr clean ↦ skipped (inl clean) (rest clean)
      | inl dirty ↦ elim (Bool-cases (ltb (sub64 now_ms h.last_flush_ms) flush_interval_ms)) [
        | inl early ↦
            skipped (inr (ltb→lt (sub64 now_ms h.last_flush_ms) flush_interval_ms early))
              (soon dirty early)
        | inr due ↦ subst (Flushed d h now_ms) (sym (go dirty due)) (write-Flushed d h now_ms)
      ]
    ]
      where
        rest : h.dirty ≡ false → flush_if_due (some d) h now_ms ≡ (some d, h, true)
        rest clean = rw clean refl

        soon :
            h.dirty ≡ true
            → ltb (sub64 now_ms h.last_flush_ms) flush_interval_ms ≡ true
            → flush_if_due (some d) h now_ms ≡ (some d, h, true)
        soon dirty early = rw early (rw dirty refl)

        go :
            h.dirty ≡ true
            → ltb (sub64 now_ms h.last_flush_ms) flush_interval_ms ≡ false
            → flush_if_due (some d) h now_ms
              ≡ (some (write d h now_ms).0, (write d h now_ms).1, (write d h now_ms).2)
        go dirty due = rw due (rw dirty refl)
