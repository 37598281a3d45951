-- ===== src/Registration/Pending.antt =====
-- registration.repo.ts: the generations of pending registrations.
use orgistry.Prelude.{
  str_eq_apart, ℕ, String, ◌≡◌, refl, ◌∙◌, Bool, true, false, not, ◌&&◌, ◌||◌, Option, none, some,
  List, [], ◌∷◌, arith, ◌==◌, str_eq, str_eq_refl, is_some, is_none, any,
}
use orgistry.Db.Transaction.{◌>>=◌, ◌>>◌, Tx, read, write, reject_if, ok}
use orgistry.Errors.{unique_violation}
use orgistry.Db.{PendingRegistrationRow, Database}
use orgistry.Tables.{
  find_row, update_rows, insert_row, select_rows, count_rows, find-update_found, count-update_none,
  find-update_untouched, count-insert, find-insert_first, any-eq_false_of_count, select-insert_miss,
  find-update_none, select-update_miss,
}

pub record IssuePendingParams : Type 0 where
  pub email : String
  pub normalized_email : String
  pub password_hash : String
  pub display_name : String
  pub token_hash : String
  pub invitation_id : Option ℕ
  pub expires_at : ℕ
  pub now : ℕ

-- The generations of an address that are neither used nor invalidated.
unfoldable pub is_open_for : String → PendingRegistrationRow → Bool
is_open_for email r =
    str_eq r.normalized_email email && (is_none r.used_at && is_none r.invalidated_at)

abbrev pub set_pending_invalidated : ℕ → PendingRegistrationRow → PendingRegistrationRow
set_pending_invalidated now r = record r { invalidated_at = some now }

abbrev pub set_pending_used : ℕ → PendingRegistrationRow → PendingRegistrationRow
set_pending_used now r = record r { used_at = some now }

abbrev pub staged_registration : IssuePendingParams → ℕ → PendingRegistrationRow
staged_registration p id = record {
  id = id;
  email = p.email;
  normalized_email = p.normalized_email;
  password_hash = p.password_hash;
  display_name = p.display_name;
  token_hash = p.token_hash;
  invitation_id = p.invitation_id;
  expires_at = p.expires_at;
  used_at = none;
  invalidated_at = none;
}

unfoldable pub issue_pending_registration : IssuePendingParams → (id : ℕ) → Tx (Unit {0})
issue_pending_registration p id = do
  write λ db. record db {
    pending_registrations =
        update_rows (is_open_for p.normalized_email) (set_pending_invalidated p.now)
          db.pending_registrations;
  }
  usable ← read (λ db. any (is_open_for p.normalized_email) db.pending_registrations)
  reject_if usable (unique_violation "uq_pending_registrations_usable_email")
  write λ db. record db {
    pending_registrations = insert_row (staged_registration p id) db.pending_registrations;
  }

unfoldable pub has_pending_hash : String → PendingRegistrationRow → Bool
has_pending_hash token_hash r = str_eq r.token_hash token_hash

unfoldable pub find_pending_registration : String → Database → Option PendingRegistrationRow
find_pending_registration token_hash db =
    find_row (has_pending_hash token_hash) db.pending_registrations

unfoldable pub is_pending_spent : PendingRegistrationRow → Bool
is_pending_spent r = is_some r.used_at || is_some r.invalidated_at

unfoldable pub is_open_rival : PendingRegistrationRow → PendingRegistrationRow → Bool
is_open_rival pending r = is_open_for pending.normalized_email r && not (r.id == pending.id)

-- The pending registration is used, and every other open one of the address is invalidated.
unfoldable pub consume_pending :
    PendingRegistrationRow → ℕ → List PendingRegistrationRow → List PendingRegistrationRow
consume_pending pending now rows =
    update_rows (is_open_rival pending) (set_pending_invalidated now)
      (update_rows (λ r. r.id == pending.id) (set_pending_used now) rows)

pub consume_pending-open :
    (pending : PendingRegistrationRow) (now : ℕ) (rows : List PendingRegistrationRow)
    → count_rows (is_open_for pending.normalized_email) (consume_pending pending now rows) ≡ 0
unfolding consume_pending count_rows update_rows is_open_rival is_open_for
consume_pending-open pending now [] = refl
consume_pending-open pending now (r ∷ rows) = ground (arith, consume_pending-open pending now rows)

pub find-consume_pending :
    (token_hash : String) (pending : PendingRegistrationRow) (now : ℕ)
    (rows : List PendingRegistrationRow)
    → find_row (has_pending_hash token_hash) rows ≡ some pending
    → find_row (has_pending_hash token_hash) (consume_pending pending now rows)
      ≡ some (set_pending_used now pending)
unfolding consume_pending
find-consume_pending token_hash pending now rows e =
    find-update_untouched (has_pending_hash token_hash) (is_open_rival pending)
      (set_pending_invalidated now) _ (set_pending_used now pending)
      (λ r. unfold has_pending_hash in refl)
      (find-update_found (λ r. r.id) (has_pending_hash token_hash) (set_pending_used now) rows
        pending (λ r. unfold has_pending_hash in refl) e)
      (unfold is_open_rival is_open_for in ground arith)

-- Staging a registration commits, whatever is there; then the new generation is the only open one of
-- its address, and the rows of every other address are as they were.
pub issue_pending_registration-open :
    (p : IssuePendingParams) (id : ℕ) (other : String) (db : Database)
    → str_eq p.normalized_email other ≡ false
    → (db' : Database) × (issue_pending_registration p id db ≡ ok (tt, db'))
      × (count_rows (is_open_for p.normalized_email) db'.pending_registrations ≡ 1)
      × (find_row (is_open_for p.normalized_email) db'.pending_registrations
          ≡ some (staged_registration p id))
      × (select_rows (λ r. str_eq r.normalized_email other) db'.pending_registrations
          ≡ select_rows (λ r. str_eq r.normalized_email other) db.pending_registrations)
unfolding issue_pending_registration
issue_pending_registration-open p id other db apart =
    let retired : List PendingRegistrationRow =
      update_rows (is_open_for p.normalized_email) (set_pending_invalidated p.now)
        db.pending_registrations in
    let closed =
      count-update_none (is_open_for p.normalized_email) (is_open_for p.normalized_email)
        (set_pending_invalidated p.now) db.pending_registrations (λ r h. h)
        (λ r h. unfold is_open_for in ground arith) in
    let unused =
      any-eq_false_of_count (is_open_for p.normalized_email) (is_open_for p.normalized_email)
        retired (λ r h. h) closed in
    let fresh : is_open_for p.normalized_email (staged_registration p id) ≡ true =
      unfold is_open_for in ground (arith, str_eq_refl p.normalized_email) in
    (
      record db { pending_registrations = insert_row (staged_registration p id) retired },
      ground arith,
      count-insert (is_open_for p.normalized_email) (staged_registration p id) retired
          ∙ rw (closed, fresh) refl,
      find-insert_first (is_open_for p.normalized_email) (staged_registration p id) retired
          (find-update_none (is_open_for p.normalized_email) (is_open_for p.normalized_email)
            (set_pending_invalidated p.now) db.pending_registrations (λ r h. h)
            (λ r. unfold is_open_for in ground arith))
          fresh,
      select-insert_miss (λ r. str_eq r.normalized_email other) (staged_registration p id) retired
            apart
          ∙ select-update_miss (λ r. str_eq r.normalized_email other)
              (is_open_for p.normalized_email) (set_pending_invalidated p.now)
              db.pending_registrations
              (λ r h.
                str_eq_apart r.normalized_email p.normalized_email other
                  (unfold is_open_for in ground arith) apart)
              (λ r h.
                str_eq_apart r.normalized_email p.normalized_email other
                  (unfold is_open_for in ground arith) apart),
    )
