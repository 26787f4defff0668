-- ===== src/Client/Flushing.antt =====
-- No record is lost or sent twice by a flush of sdk_python/client/client.py.
use evidence_control_plane.Prelude.{
  ltb, if◌then◌else◌, Result, err, ok, ◌==◌, ==-refl, string_eq, nat_eq, ℕ, suc, ◌+◌, ◌≤◌, ◌<◌,
  String, ◌≡◌, refl, inl, inr, Bool, true, false, not, ◌&&◌, List, [], ◌∷◌, ◌++◌, arith,
}
use evidence_control_plane.Prelude.Lists.{
  length, keep, count_if, length-keep, keep-count_if, In, In-keep,
}
use evidence_control_plane.Prelude.Sets.{contains}
use evidence_control_plane.Prelude.Sort.{insert_by, sort_by}
use evidence_control_plane.Client.{
  BufferedRecord, ClientConfig, Client, Delivery, EmitError, record_rejected, World,
}
use evidence_control_plane.Client.Flush.{
  by_sequence_item, pending, is_gap, Submitted, submit_all, ids_of_records, is_unsent, after_flush,
  flush,
}
use evidence_control_plane.Client.Numbering.{holders-append, IsNumbered}

module _ {A : Type 0} where
  pub count_if-append :
      (p : A → Bool) (xs ys : List A) → count_if p (xs ++ ys) ≡ count_if p xs + count_if p ys
  count_if-append p [] ys = omega arith
  count_if-append p (x ∷ xs) ys = ground (arith, count_if-append p xs ys)

  pub count_if-insert_by :
      (le : A → A → Bool) (p : A → Bool) (x : A) (xs : List A)
      → count_if p (insert_by le x xs) ≡ (if p x then 1 else 0) + count_if p xs
  count_if-insert_by le p x [] = refl
  count_if-insert_by le p x (y ∷ ys) = ground (arith, count_if-insert_by le p x ys)

  pub count_if-sort_by :
      (le : A → A → Bool) (p : A → Bool) (xs : List A) → count_if p (sort_by le xs) ≡ count_if p xs
  count_if-sort_by le p [] = refl
  count_if-sort_by le p (x ∷ xs) =
      ground (arith, count_if-insert_by le p x (sort_by le xs), count_if-sort_by le p xs)

  pub count_if-keep_both :
      (p r : A → Bool) (xs : List A) → count_if p (keep r xs) ≡ count_if (λ x. r x && p x) xs
  count_if-keep_both p r [] = refl
  count_if-keep_both p r (x ∷ xs) = ground (arith, count_if-keep_both p r xs)

  pub count_if-split :
      (p r : A → Bool) (xs : List A)
      → count_if p xs ≡ count_if (λ x. r x && p x) xs + count_if (λ x. not (r x) && p x) xs
  count_if-split p r [] = omega arith
  count_if-split p r (x ∷ xs) = ground (arith, count_if-split p r xs)

  pub count_if_same :
      (p q : A → Bool) (xs : List A)
      → ((x : A) → In x xs → p x ≡ q x)
      → count_if p xs ≡ count_if q xs
  count_if_same p q [] h = refl
  count_if_same p q (x ∷ xs) h =
      ground (arith, h x (inl refl), count_if_same p q xs (λ y i. h y (inr i)))

  pub count_if_none :
      (p : A → Bool) (xs : List A) → ((x : A) → In x xs → p x ≡ false) → count_if p xs ≡ 0
  count_if_none p [] h = refl
  count_if_none p (x ∷ xs) h =
      ground (arith, h x (inl refl), count_if_none p xs (λ y i. h y (inr i)))

  pub count_if_positive :
      (p : A → Bool) (x : A) (xs : List A) → In x xs → p x ≡ true → 0 < count_if p xs
  count_if_positive p x [] i e = elim i [ ]
  count_if_positive p x (y ∷ ys) i e = ground (arith, count_if_positive p x ys)

-- What was outstanding is what was sent and what was not.
pub submit_all-count :
    (answers : ℕ → Delivery) (p : BufferedRecord → Bool) (n : ℕ) (items : List BufferedRecord)
    → (submit_all answers n items).stopped ≡ false
    → count_if p (submit_all answers n items).sent + count_if p (submit_all answers n items).unsent
      ≡ count_if p items
unfolding submit_all
submit_all-count answers p n [] h = omega arith
submit_all-count answers p n (item ∷ items) h =
    ground (arith, submit_all-count answers p (suc n) items)

pub contains-count_if :
    (id : String) (items : List BufferedRecord)
    → contains id (ids_of_records items) ≡ ltb 0 (count_if (λ x. x.record_id == id) items)
contains-count_if id [] = ground arith
contains-count_if id (x ∷ xs) = ground (arith, contains-count_if id xs)

-- The gaps are the records of type `CoverageGap`, and no two records have one identifier.
pub record IsSorted (c : Client) : Type 0 where
  pub no_gaps : (x : BufferedRecord) → In x c.buffer → is_gap x ≡ false
  pub all_gaps : (x : BufferedRecord) → In x c.gaps → is_gap x ≡ true
  pub distinct : (id : String) → count_if (λ x. x.record_id == id) (c.buffer ++ c.gaps) ≤ 1

module _ (config : ClientConfig) (c : Client) (answers : ℕ → Delivery) (sorted : IsSorted c)
    (done : (submit_all answers 0 (pending c)).stopped ≡ false) where
  abbrev submitted : Submitted
  submitted = submit_all answers 0 (pending c)

  pub outstanding_count :
      (p : BufferedRecord → Bool)
      → count_if p submitted.sent + count_if p submitted.unsent
        ≡ count_if p c.buffer + count_if p c.gaps
  outstanding_count p = omega (
    arith,
    submit_all-count answers p 0 (pending c) done,
    count_if-sort_by by_sequence_item p (c.buffer ++ c.gaps),
    count_if-append p c.buffer c.gaps,
  )

  pub sent_contained : (x : BufferedRecord) → In x submitted.sent → is_unsent submitted x ≡ false
  sent_contained x i = ground (
    arith,
    contains-count_if x.record_id submitted.sent,
    count_if_positive (λ y. y.record_id == x.record_id) x submitted.sent i (==-refl x.record_id),
  )

  pub unsent_left : (x : BufferedRecord) → In x submitted.unsent → is_unsent submitted x ≡ true
  unsent_left x i = ground (
    arith,
    contains-count_if x.record_id submitted.sent,
    count_if_positive (λ y. y.record_id == x.record_id) x submitted.unsent i (==-refl x.record_id),
    outstanding_count (λ y. y.record_id == x.record_id),
    sorted.distinct x.record_id,
    count_if-append (λ (y : BufferedRecord). y.record_id == x.record_id) c.buffer c.gaps,
  )

  -- What the client keeps is what was not sent.
  pub kept_count :
      (p : BufferedRecord → Bool)
      → count_if p (keep (λ item. not (is_gap item)) submitted.unsent)
          + count_if p (keep (is_unsent submitted) c.gaps)
        ≡ count_if p submitted.unsent
  kept_count p =
      let q : BufferedRecord → Bool = λ x. is_unsent submitted x && (is_gap x && p x) in
      omega (
        arith,
        count_if-keep_both p (λ (x : BufferedRecord). not (is_gap x)) submitted.unsent,
        count_if-keep_both p (is_unsent submitted) c.gaps,
        count_if_same (λ x. is_unsent submitted x && p x) q c.gaps
            (λ x i. ground (arith, sorted.all_gaps x i)),
        outstanding_count q,
        count_if_none q submitted.sent (λ x i. ground (arith, sent_contained x i)),
        count_if_none q c.buffer (λ x i. ground (arith, sorted.no_gaps x i)),
        count_if_same q (λ x. is_gap x && p x) submitted.unsent
            (λ x i. ground (arith, unsent_left x i)),
        count_if-split p is_gap submitted.unsent,
      )

  pub kept_bounded : length (keep (λ item. not (is_gap item)) submitted.unsent) ≤ length c.buffer
  kept_bounded =
      let p : BufferedRecord → Bool = λ x. not (is_gap x) in
      omega (
        arith,
        keep-count_if p submitted.unsent,
        outstanding_count p,
        count_if_none p c.gaps (λ x i. ground (arith, sorted.all_gaps x i)),
        keep-count_if p c.buffer,
        length-keep p c.buffer,
      )

  pub after_flush-IsSorted : IsSorted (after_flush config c submitted)
  unfolding after_flush
  after_flush-IsSorted = record {
    no_gaps = λ x i. ground (arith, (In-keep (λ y. not (is_gap y)) x submitted.unsent i).1);
    all_gaps = λ x i. sorted.all_gaps x (In-keep (is_unsent submitted) x c.gaps i).0;
    distinct = λ id. omega (
      arith,
      count_if-append (λ (x : BufferedRecord). x.record_id == id)
          (keep (λ item. not (is_gap item)) submitted.unsent) (keep (is_unsent submitted) c.gaps),
      kept_count (λ x. x.record_id == id),
      outstanding_count (λ x. x.record_id == id),
      sorted.distinct id,
      count_if-append (λ (x : BufferedRecord). x.record_id == id) c.buffer c.gaps,
    );
  }

  pub after_flush-IsNumbered :
      (ledger : List BufferedRecord)
      → IsNumbered config ledger c
      → IsNumbered config (ledger ++ submitted.sent) (after_flush config c submitted)
  unfolding after_flush
  after_flush-IsNumbered ledger h = record {
    numbered = λ k. omega (
      arith,
      holders-append k ledger submitted.sent,
      kept_count (λ item. item.sequence == k),
      outstanding_count (λ item. item.sequence == k),
      h.numbered k,
    );
    bounded = omega (arith, kept_bounded, h.bounded);
  }

-- Where every number up to that of the client is held once, by ingestion or by the client, the
-- gaps are the records of type CoverageGap and no two records that the client holds have one
-- identifier, all of that is true after a flush that returns, whichever submissions found
-- ingestion absent.
pub flush-IsNumbered :
    (config : ClientConfig) (world : World) (answers : ℕ → Delivery) (sent : List BufferedRecord)
    → IsNumbered config world.ledger world.client
    → IsSorted world.client
    → (flush config world answers).result ≡ ok sent
    → IsNumbered config
        (flush config world answers).world.ledger
        (flush config world answers).world.client
      × IsSorted (flush config world answers).world.client
unfolding flush
flush-IsNumbered config world answers sent h sorted returned =
    let s = submit_all answers 0 (pending world.client) in
    let done = not_stopped s.stopped s.sent returned in
    rw done (
      after_flush-IsNumbered config world.client answers sorted done world.ledger h,
      after_flush-IsSorted config world.client answers sorted done,
    )
  where
    not_stopped :
        (b : Bool) (xs : List BufferedRecord)
        → ◌≡◌ {A = Result EmitError (List BufferedRecord)}
            (if b then err record_rejected else ok xs)
            (ok sent)
        → b ≡ false
    not_stopped true xs e = cc
    not_stopped false xs e = refl
