-- ===== src/Sys/Kqueue/Knotes.antt =====
-- src/sys/unix/kqueue.rs: the filters that are registered with a kqueue, as kqueue(2) describes how
-- changes are applied to them.
use gaea.Base.{suc}
use gaea.Base.{
  ℕ, bit_and, bit_or, ◌≡◌, refl, sym, ap₂, ◌∙◌, ◌≢◌, ◌⊎◌, inl, inr, Bool, true, false, ◌&&◌, ◌||◌,
  Option, none, some, List, [], ◌∷◌, arith, ◌==◌, if◌then◌else◌, Bool-cases, Option-cases, ok, err,
  IoError, interrupted,
}
use gaea.Bits.Flags.{bit_or-has_any}
use gaea.Event.{EventId}
use gaea.Os.Interests.{Interests, is_readable, is_writable}
use gaea.Os.Options.{RegisterOption, is_edge, is_oneshot}
use gaea.Sys.Kqueue.Abi.{Kevent, KqueueFlags, KqueueKernel}
use gaea.Sys.Kqueue.{contains_flag, new_kevent, opt_to_flags}

-- The identifiers of the registered filters, by descriptor and filter.
abbrev pub Knotes : Type 0
Knotes = ℕ → ℕ → Option EventId

abbrev pub Same : Knotes → Knotes → Type 0
Same m n = (ident filter : ℕ) → m ident filter ≡ n ident filter

abbrev pub put : Knotes → ℕ → ℕ → Option EventId → Knotes
put m fd filter v k f = if k == fd && (f == filter) then v else m k f

-- The flags of changes and `EV_ERROR` are not zero, and `EV_DELETE` shares no bit with the others.
pub record AreChanges (c : KqueueFlags) : Type 0 where
  pub add_add : bit_and c.ev_add c.ev_add ≢ 0
  pub delete_delete : bit_and c.ev_delete c.ev_delete ≢ 0
  pub add_delete : bit_and c.ev_add c.ev_delete ≡ 0
  pub receipt_delete : bit_and c.ev_receipt c.ev_delete ≡ 0
  pub clear_delete : bit_and c.ev_clear c.ev_delete ≡ 0
  pub oneshot_delete : bit_and c.ev_oneshot c.ev_delete ≡ 0
  pub receipt_receipt : bit_and c.ev_receipt c.ev_receipt ≢ 0
  pub error_error : bit_and c.ev_error c.ev_error ≢ 0

-- The system refuses none of the changes.
abbrev pub none_refused : ℕ → ℕ
none_refused n = 0

module _ (c : KqueueFlags) where
  -- What a change does, and the error number of its entry: a filter is removed or added; a change
  -- of one that is not registered is `ENOENT`.
  unfoldable pub apply : Kevent → Knotes → Knotes × ℕ
  apply k m =
      if contains_flag k.flags c.ev_delete
      then (elim (m k.ident k.filter) [
        | none ↦ (m, c.enoent)
        | some old ↦ (put m k.ident k.filter none, 0)
      ])
      else if contains_flag k.flags c.ev_add
      then (put m k.ident k.filter (some k.udata), 0)
      else (elim (m k.ident k.filter) [ none ↦ (m, c.enoent) | some old ↦ (m, 0) ])

  abbrev pub receipt : Kevent → ℕ → Kevent
  receipt k errno = record k { flags = bit_or k.flags c.ev_error; datum = errno }

  -- A change that the system refuses, for a reason of its own, does nothing; 0 is no refusal.
  unfoldable pub attempt : Kevent → ℕ → Knotes → Knotes × ℕ
  unfolding apply
  attempt k refusal m = if refusal == 0 then apply k m else (m, refusal)

  -- What the changes do in their order, and their entries. `refusals` says which are refused.
  unfoldable pub apply_all : List Kevent → (ℕ → ℕ) → Knotes → Knotes × List Kevent
  unfolding attempt
  apply_all [] refusals m = (m, [])
  apply_all (k ∷ ks) refusals m =
      let (m', errno) = attempt k (refusals 0) m in
      let (m'', entries) = apply_all ks (λ n. refusals (suc n)) m' in
      (m'', receipt k errno ∷ entries)

  -- kqueue(2): a call with changes that succeeds has tried each of them, and its entry has the
  -- error number if that was refused, for any reason; `ENOENT` stands only for a filter that is not
  -- registered. A call that a signal interrupts has applied all changes, and one that fails
  -- otherwise has applied none.
  pub record HasKnotes {W : Type 0} (kernel : KqueueKernel W) (kq : ℕ) (knotes : W → Knotes)
      : Type 0 where
    pub applied :
        (ks entries : List Kevent) (w w' : W)
        → kernel.changes kq ks w ≡ (ok entries, w')
        → (refusals : ℕ → ℕ) × ((n : ℕ) → (refusals n ≡ 0) ⊎ (refusals n ≢ c.enoent))
          × (entries ≡ (apply_all ks refusals (knotes w)).1)
          × Same (knotes w') (apply_all ks refusals (knotes w)).0
    pub was_interrupted :
        (ks : List Kevent) (w w' : W)
        → kernel.changes kq ks w ≡ (err interrupted, w')
        → Same (knotes w') (apply_all ks none_refused (knotes w)).0
    pub failed :
        (ks : List Kevent) (w w' : W) (e : IoError)
        → kernel.changes kq ks w ≡ (err e, w')
        → e ≢ interrupted
        → Same (knotes w') (knotes w)

  -- What the registrations promise.
  abbrev pub wanted : Bool → EventId → Option EventId
  wanted test id = if test then some id else none

  abbrev pub registered : ℕ → EventId → Interests → Knotes → Knotes
  registered fd id i m =
      let m' = if is_writable i then put m fd c.evfilt_write (some id) else m in
      if is_readable i then put m' fd c.evfilt_read (some id) else m'

  abbrev pub reregistered : ℕ → EventId → Interests → Knotes → Knotes
  reregistered fd id i m =
      put (put m fd c.evfilt_write (wanted (is_writable i) id)) fd c.evfilt_read
        (wanted (is_readable i) id)

  abbrev pub deregistered : ℕ → Knotes → Knotes
  deregistered fd m = put (put m fd c.evfilt_write none) fd c.evfilt_read none

  pub contains-bit_or :
      (a b f : ℕ) → contains_flag (bit_or a b) f ≡ (contains_flag a f || contains_flag b f)
  unfolding contains_flag
  contains-bit_or a b f = bit_or-has_any a b f

  pub apart : (a f : ℕ) → bit_and a f ≡ 0 → contains_flag a f ≡ false
  unfolding contains_flag
  apart a f h = ground arith

  pub itself : (f : ℕ) → bit_and f f ≢ 0 → contains_flag f f ≡ true
  unfolding contains_flag
  itself f h = ground arith

  module _ (are : AreChanges c) where
    pub opt_to_flags-delete :
        (o : RegisterOption) → contains_flag (opt_to_flags c o) c.ev_delete ≡ false
    unfolding opt_to_flags
    opt_to_flags-delete o =
        let r = apart c.ev_receipt c.ev_delete are.receipt_delete in
        let k = apart c.ev_clear c.ev_delete are.clear_delete in
        let n = apart c.ev_oneshot c.ev_delete are.oneshot_delete in
        let rk = contains-bit_or c.ev_receipt c.ev_clear c.ev_delete in
        let rn = contains-bit_or c.ev_receipt c.ev_oneshot c.ev_delete in
        let rkn = contains-bit_or (bit_or c.ev_receipt c.ev_clear) c.ev_oneshot c.ev_delete in
        elim (Bool-cases (is_edge o)) [
          | inl e ↦ elim (Bool-cases (is_oneshot o)) [
            | inl f ↦ rw (e, f, rkn, rk, r, k, n) refl
            | inr f ↦ rw (e, f, rk, r, k) refl
          ]
          | inr e ↦ elim (Bool-cases (is_oneshot o)) [
            | inl f ↦ rw (e, f, rn, r, n) refl
            | inr f ↦ rw (e, f) r
          ]
        ]

    has_add : (f : ℕ) → contains_flag (bit_or f c.ev_add) c.ev_add ≡ true
    has_add f = ground (arith, contains-bit_or f c.ev_add c.ev_add, itself c.ev_add are.add_add)

    has_delete : (f : ℕ) → contains_flag (bit_or f c.ev_delete) c.ev_delete ≡ true
    has_delete f =
        ground
          (arith, contains-bit_or f c.ev_delete c.ev_delete, itself c.ev_delete are.delete_delete)

    add-delete :
        (f : ℕ)
        → contains_flag f c.ev_delete ≡ false
        → contains_flag (bit_or f c.ev_add) c.ev_delete ≡ false
    add-delete f h =
        ground
          (arith, contains-bit_or f c.ev_add c.ev_delete, apart c.ev_add c.ev_delete are.add_delete)

    -- What a change with `EV_ADD` does, and one with `EV_DELETE`.
    pub apply_add :
        (ident filter flags : ℕ) (id : EventId) (m : Knotes)
        → contains_flag flags c.ev_delete ≡ false
        → apply (new_kevent ident filter (bit_or flags c.ev_add) id) m
          ≡ (put m ident filter (some id), 0)
    unfolding apply new_kevent
    apply_add ident filter flags id m h = rw (add-delete flags h, has_add flags) refl

    -- The entry of a change counts as no error where `ENOENT` is ignored.
    abbrev pub Effect : Knotes → ℕ → ℕ → Option EventId → Knotes × ℕ → Type 0
    Effect m ident filter v (m', errno) =
        Same m' (put m ident filter v) × ((errno ≡ 0) ⊎ (errno ≡ c.enoent))

    put_missing :
        (m : Knotes) (ident filter : ℕ) → m ident filter ≡ none → Same m (put m ident filter none)
    put_missing m ident filter e k f = elim (Bool-cases (k == ident && (f == filter))) [
      | inl hit ↦
          let (a, b) : (k ≡ ident) × (f ≡ filter) = (ground arith, ground arith) in
          ap₂ m a b ∙ e ∙ sym (rw hit refl)
      | inr miss ↦ rw miss refl
    ]

    pub apply_delete :
        (ident filter flags : ℕ) (id : EventId) (m : Knotes)
        → Effect m ident filter none
            (apply (new_kevent ident filter (bit_or flags c.ev_delete) id) m)
    unfolding apply new_kevent
    apply_delete ident filter flags id m = elim (Option-cases (m ident filter)) [
      | inl e ↦ rw (has_delete flags, e) (put_missing m ident filter e, inr refl)
      | inr (old, e) ↦ rw (has_delete flags, e) ((λ k f. refl), inl refl)
    ]
