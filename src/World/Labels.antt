-- ===== src/World/Labels.antt =====
-- The UNIQUE key of migrations/V001.sql on `hostnameLabel`.
use appliance_registry.Prelude.{
  ℕ, ◌≡◌, ◌≢◌, false, Bool, none, some, List, [], ◌∷◌, text_eq_iff, arith, find,
}
use appliance_registry.World.{Row, Database}
use appliance_registry.World.Statements.{row_of, has_id, has_label}
use appliance_registry.World.Keys.{IsDistinct}
use appliance_registry.World.Consistency.{HasKeys}

find-none-some :
    (p q : Row → Bool) (rows : List Row) {r : Row}
    → find q rows ≡ none
    → find p rows ≡ some r
    → q r ≡ false
unfolding find
find-none-some p q [] h k = cc
find-none-some p q (x ∷ rows) {r} h k = ground (arith, find-none-some p q rows {r = r})

labels_differ :
    (i j : ℕ) (rows : List Row) {r s : Row}
    → IsDistinct (λ r s. has_label r.hostname_label s) rows
    → i ≢ j
    → find (has_id i) rows ≡ some r
    → find (has_id j) rows ≡ some s
    → r.hostname_label ≢ s.hostname_label
unfolding find
labels_differ i j [] d other e k same = cc
labels_differ i j (x ∷ rows) {r} {s} (new, d) other e k same =
    let first = find-none-some (has_id i) (has_label x.hostname_label) rows {r = r} new in
    let second = find-none-some (has_id j) (has_label x.hostname_label) rows {r = s} new in
    ground (
      arith,
      first,
      second,
      text_eq_iff r.hostname_label s.hostname_label,
      text_eq_iff s.hostname_label r.hostname_label,
      labels_differ i j rows {r = r} {s = s} d other,
    )

-- Appliances with different ids have different labels.
pub label_of_rows-ne :
    (i j : ℕ) (db : Database) {r s : Row}
    → HasKeys db
    → i ≢ j
    → row_of i db ≡ some r
    → row_of j db ≡ some s
    → r.hostname_label ≢ s.hostname_label
unfolding row_of
label_of_rows-ne i j db h other e k = labels_differ i j db.appliances h.labels other e k
