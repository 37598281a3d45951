-- ===== src/Tests/Shared.antt =====
-- The catalogs, the sanitizer, the limiter, the pagination and the service methods on the sample.
use Prim.Native.Nat.{min}
use orgistry.Prelude.{◌≡◌, refl, ◌≢◌, inl, inr, none, List, [], ◌∷◌, arith}
use orgistry.Metadata.{end, Entries, text_entry, sanitize_security_metadata}
use orgistry.Projects.{is_active_project_of}
use orgistry.RateLimit.{rl_key, get_window, BucketKey}
use orgistry.Pagination.{order_by_desc, list_rows, page_of, list_page}
use orgistry.Db.{ProjectRow}
use orgistry.Pagination.Pages.{follow, follow-listing, turn}
use orgistry.Tables.{select_rows, HasUniqueIds}
use orgistry.RateLimit.Allowance.{
  hits, count_allowed, in_memory_consume-allowance, Hit, own, foreign, count_own,
}
use orgistry.Metadata.Sanitized.{HasCleanEntries, sanitize_security_metadata-HasCleanEntries}
use orgistry.Tests.Samples.{site}
use orgistry.Pagination.Order.{AreApart}

abbrev leaky : Entries
leaky = text_entry "password" "p" (text_entry "targetType" "project" end)

sanitize_security_metadata-HasCleanEntries_example :
    HasCleanEntries 4 (sanitize_security_metadata leaky)
sanitize_security_metadata-HasCleanEntries_example =
    sanitize_security_metadata-HasCleanEntries leaky

abbrev user_one : BucketKey
user_one = rl_key "rl:x:" 1

abbrev user_two : BucketKey
user_two = rl_key "rl:x:" 2

two_is_not_one : user_two ≢ user_one
two_is_not_one e = absurd (ground arith)

abbrev run_of_hits : List (Hit user_one)
run_of_hits = foreign user_two two_is_not_one 6 1 60 ∷ own 7 ∷ own 8 ∷ []

in_memory_consume-allowance_example :
    count_allowed (hits 2 60 user_one (own 5 ∷ run_of_hits) [])
    ≡ min 2 (count_own {key = user_one} (own 5 ∷ run_of_hits))
in_memory_consume-allowance_example =
    in_memory_consume-allowance 2 60 user_one 5 run_of_hits [] (inl (unfold get_window in refl))
      (omega arith, (omega arith, tt))

abbrev three_projects : List ProjectRow
three_projects =
    record site { created_at = 2000 }
    ∷ record site { id = 7; created_at = 2000 }
    ∷ record site { id = 8; created_at = 3900 }
    ∷ []

projects_AreApart :
    AreApart
      (λ (r : ProjectRow). r.created_at)
      (λ r. r.id)
      (select_rows (is_active_project_of 1) three_projects)
unfolding select_rows is_active_project_of
projects_AreApart = (
  (inr (refl, refl), (inl (λ e. absurd (omega arith)), tt)),
  ((inl (λ e. absurd (omega arith)), tt), (tt, tt)),
)

-- Two rows of one millisecond: the cursor of the first page skips the second row.
one_millisecond :
    follow
      (λ (r : ProjectRow). r.created_at)
      (λ r. r.id)
      5
      (is_active_project_of 1)
      1
      (record site { created_at = 2100 } ∷ record site { id = 7; created_at = 2900 } ∷ [])
      none
    ≡ record site { id = 7; created_at = 2900 } ∷ []
unfolding follow turn list_page list_rows page_of order_by_desc select_rows is_active_project_of
one_millisecond = refl

sites_unique : HasUniqueIds (λ (r : ProjectRow). r.id) three_projects
sites_unique = (
  (λ e. absurd (omega arith), (λ e. absurd (omega arith), tt)),
  ((λ e. absurd (omega arith), tt), (tt, tt)),
)

follow-listing_example :
    follow
      (λ (r : ProjectRow). r.created_at)
      (λ r. r.id)
      5
      (is_active_project_of 1)
      1
      three_projects
      none
    ≡ order_by_desc
        (λ r. r.created_at)
        (λ r. r.id)
        (select_rows (is_active_project_of 1) three_projects)
follow-listing_example =
    follow-listing (λ (r : ProjectRow). r.created_at) (λ r. r.id) (is_active_project_of 1) 1
      three_projects 5 sites_unique projects_AreApart (omega arith)
      (unfold order_by_desc select_rows is_active_project_of in omega arith)
