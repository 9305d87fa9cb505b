-- ===== src/Policy/Ranking.antt =====
-- The two comparisons of the evaluator rank rules: by priority, then by the narrower scope, then a
-- block before an allow.
use ajar_family.Prelude.{ℕ, ◌+◌, ◌≡◌, true, arith, ◌<◌, ◌≤◌, ◌↔◌, ◌⊎◌}
use ajar_family.Prelude.Int.{ℤ, pos, negsuc, pos_part, neg_part, ◌-ℤ◌}
use ajar_family.Prelude.Sort.{IsPreorder}
use ajar_family.Policy.Model.{PolicyRule, TemporaryRule}
use ajar_family.Policy.Evaluate.{
  scope_specificity, priority_of, or_else, by_action, not_after, temp_le, rule_le,
}

-- Strictly less, on integers.
infix 50 ◌<ℤ◌
abbrev pub ◌<ℤ◌ : ℤ → ℤ → Type 0
a <ℤ b = pos_part a + neg_part b < pos_part b + neg_part a

-- One key of a comparison: it decides where the numbers differ, else the rest does.
key_iff :
    (a b c : ℤ)
    → (not_after (or_else (b -ℤ a) c) ≡ true) ↔ ((b <ℤ a) ⊎ ((a ≡ b) × (not_after c ≡ true)))
unfolding ◌-ℤ◌
key_iff (pos a) (pos b) c = (ground arith, ground arith)
key_iff (pos a) (negsuc b) c = (ground arith, ground arith)
key_iff (negsuc a) (pos b) c = (ground arith, ground arith)
key_iff (negsuc a) (negsuc b) c = (ground arith, ground arith)

specificity_iff : (a b : ℕ) → (not_after (pos b -ℤ pos a) ≡ true) ↔ (b ≤ a)
unfolding ◌-ℤ◌
specificity_iff a b = (ground arith, ground arith)

both_keys :
    (pa pb : ℤ) (sa sb : ℕ)
    → (not_after (or_else (pb -ℤ pa) (pos sb -ℤ pos sa)) ≡ true)
      ↔ ((pb <ℤ pa) ⊎ ((pa ≡ pb) × (sb ≤ sa)))
both_keys pa pb sa sb =
    let first = key_iff pa pb (pos sb -ℤ pos sa) in
    let second = specificity_iff sa sb in
    (ground (arith, first, second), ground (arith, first, second))

all_keys :
    (pa pb : ℤ) (sa sb : ℕ) (last : ℤ)
    → (not_after (or_else (pb -ℤ pa) (or_else (pos sb -ℤ pos sa) last)) ≡ true)
      ↔ ((pb <ℤ pa) ⊎ ((pa ≡ pb) × ((sb < sa) ⊎ ((sa ≡ sb) × (not_after last ≡ true)))))
all_keys pa pb sa sb last =
    let first = key_iff pa pb (or_else (pos sb -ℤ pos sa) last) in
    let second = key_iff (pos sa) (pos sb) last in
    (ground (arith, first, second), ground (arith, first, second))

-- The order of temporary rules: a higher priority, or the same and no wider a scope.
abbrev pub TempBefore : TemporaryRule → TemporaryRule → Type 0
TempBefore a b =
    (priority_of b.priority <ℤ priority_of a.priority)
    ⊎ ((priority_of a.priority ≡ priority_of b.priority)
        × (scope_specificity b.scope ≤ scope_specificity a.scope))

pub temp_le_iff : (a b : TemporaryRule) → (temp_le a b ≡ true) ↔ TempBefore a b
temp_le_iff a b =
    unfold temp_le in
    both_keys (priority_of a.priority) (priority_of b.priority) (scope_specificity a.scope)
      (scope_specificity b.scope)

-- The order of standing rules: a higher priority, or the same and a narrower scope, or the same of
-- both and not an allow before a block.
abbrev pub RuleBefore : PolicyRule → PolicyRule → Type 0
RuleBefore a b =
    (priority_of b.priority <ℤ priority_of a.priority)
    ⊎ ((priority_of a.priority ≡ priority_of b.priority)
        × ((scope_specificity b.scope < scope_specificity a.scope)
            ⊎ ((scope_specificity a.scope ≡ scope_specificity b.scope)
                × (not_after (by_action a.action b.action) ≡ true))))

pub rule_le_iff : (a b : PolicyRule) → (rule_le a b ≡ true) ↔ RuleBefore a b
rule_le_iff a b =
    unfold rule_le in
    all_keys (priority_of a.priority) (priority_of b.priority) (scope_specificity a.scope)
      (scope_specificity b.scope) (by_action a.action b.action)

pub temp_le-IsPreorder : IsPreorder temp_le
temp_le-IsPreorder = record {
  total = λ a b n. ground (arith, temp_le_iff a b, temp_le_iff b a);
  trans = λ a b c p q. ground (arith, temp_le_iff a b, temp_le_iff b c, temp_le_iff a c);
}

pub rule_le-IsPreorder : IsPreorder rule_le
rule_le-IsPreorder = record {
  total = λ a b n. ground (arith, rule_le_iff a b, rule_le_iff b a);
  trans = λ a b c p q. ground (arith, rule_le_iff a b, rule_le_iff b c, rule_le_iff a c);
}
