-- ===== src/Planning/Policy.antt =====
-- `SizingPolicy.__post_init__` of planning.py, from the untyped arguments of the constructor.
use kapsl_integrations.Prelude.{
  ℕ, ◌≡◌, String, Bool, true, false, Option, none, some, ok, err, raise_if, ltb, ltb→ge, ge→ltb,
  ◌>>=◌, ◌>>◌, arith, Ensures, Ensures-ok, Ensures-bind, Ensures-raise_if,
}
use kapsl_integrations.Prelude.Values.{pos, negsuc, Value, null, bool, int}
use kapsl_integrations.Planning.Errors.{
  Planned, not_an_integer, not_positive, not_non_negative, percent_above_100,
  maximum_below_target_concurrency, min_above_max, not_a_boolean,
}
use kapsl_integrations.Planning.Types.{SizingPolicy}
use kapsl_integrations.Planning.Validity.{IsPolicy, IsPositive, IsPositiveIfSet, Ordered}
use kapsl_integrations.Planning.Checked.{uint}
use kapsl_integrations.Planning.Checked.Laws.{Fits}

-- `_uint` of any value: a bool is no integer here.
unfoldable pub uint_value : Value → String → Bool → Planned ℕ
unfolding uint
uint_value (int (pos n)) field allow_zero = uint n field allow_zero
uint_value (int (negsuc n)) field true = err (not_non_negative field)
uint_value (int (negsuc n)) field false = err (not_positive field)
uint_value _ field allow_zero = err (not_an_integer field)

-- `if value is not None: _uint(value, field)`
unfoldable pub uint_if_set : Value → String → Planned (Option ℕ)
unfolding uint_value
uint_if_set null field = ok none
uint_if_set value field = uint_value value field false >>= λ n. ok (some n)

-- `low is not None and high is not None and low > high`
abbrev pub out_of_order : Option ℕ → Option ℕ → Bool
out_of_order (some low) (some high) = ltb high low
out_of_order _ _ = false

pub record PolicyArguments : Type 0 where
  pub target_concurrency : Value
  pub maximum_concurrency : Value
  pub headroom_percent : Value
  pub prefix_blocks : Value
  pub alignment_blocks : Value
  pub min_bytes : Value
  pub max_bytes : Value
  pub strict_concurrency : Value

unfoldable pub boolean : Value → Planned Bool
boolean (bool b) = ok b
boolean _ = err not_a_boolean

unfoldable pub policy_post_init : PolicyArguments → Planned SizingPolicy
policy_post_init a = do
  target ← uint_value a.target_concurrency "target_concurrency" false
  maximum ← uint_if_set a.maximum_concurrency "maximum_concurrency"
  raise_if (out_of_order (some target) maximum) maximum_below_target_concurrency
  percent ← uint_value a.headroom_percent "headroom_percent" true
  raise_if (ltb 100 percent) percent_above_100
  prefix ← uint_value a.prefix_blocks "prefix_blocks" true
  alignment ← uint_value a.alignment_blocks "alignment_blocks" false
  low ← uint_if_set a.min_bytes "min_bytes"
  high ← uint_if_set a.max_bytes "max_bytes"
  raise_if (out_of_order low high) min_above_max
  strict ← boolean a.strict_concurrency
  ok (record {
    target_concurrency = target;
    maximum_concurrency = maximum;
    headroom_percent = percent;
    prefix_blocks = prefix;
    alignment_blocks = alignment;
    min_bytes = low;
    max_bytes = high;
    strict_concurrency = strict;
  })

IsPositive-Ensures : (v : Value) (field : String) → Ensures IsPositive (uint_value v field false)
unfolding uint_value uint
IsPositive-Ensures (int (pos n)) field = record { at = λ m h. ground arith }
IsPositive-Ensures v field = record { at = λ m h. ground arith }

fits-Ensures : (v : Value) (field : String) → Ensures Fits (uint_value v field true)
unfolding uint_value uint
fits-Ensures v field = record { at = λ m h. ground arith }

if_set-Ensures : (v : Value) (field : String) → Ensures IsPositiveIfSet (uint_if_set v field)
unfolding uint_if_set uint_value uint
if_set-Ensures v field = record { at = λ m h. ground arith }

in_order : (low high : Option ℕ) → out_of_order low high ≡ false → Ordered low high
in_order (some low) (some high) h = ltb→ge high low h
in_order none high h = tt
in_order (some low) none h = tt

any-Ensures : (v : Value) → Ensures (λ _. Unit {0}) (boolean v)
any-Ensures v = record { at = λ b h. tt }

checked-IsPolicy : (a : PolicyArguments) → Ensures IsPolicy (policy_post_init a)
unfolding policy_post_init
checked-IsPolicy a = Ensures-bind _ _ (IsPositive-Ensures _ _) λ target ht.
    Ensures-bind _ _ (if_set-Ensures _ _) λ maximum hm. Ensures-raise_if _ _ _ λ above.
      Ensures-bind _ _ (fits-Ensures _ _) λ percent hp. Ensures-raise_if _ _ _ λ at_most.
        Ensures-bind _ _ (fits-Ensures _ _) λ prefix hx.
          Ensures-bind _ _ (IsPositive-Ensures _ _) λ alignment ha.
            Ensures-bind _ _ (if_set-Ensures _ _) λ low hl.
              Ensures-bind _ _ (if_set-Ensures _ _) λ high hh. Ensures-raise_if _ _ _ λ ordered.
                Ensures-bind _ _ (any-Ensures _) λ strict hs. Ensures-ok _ (record {
                  target = ht;
                  maximum = hm;
                  maximum_above = in_order (some target) maximum above;
                  percent = ltb→ge 100 percent at_most;
                  prefix = hx;
                  alignment = ha;
                  min_positive = hl;
                  max_positive = hh;
                  bytes_ordered = in_order low high ordered;
                })

-- Whatever the constructor is given, a policy that its checks let through has positive words for its
-- concurrency, alignment and byte bounds, at most 100 percent headroom, a prefix allowance of one
-- word, and its bounds in order.
pub policy_post_init-IsPolicy :
    (a : PolicyArguments) (p : SizingPolicy) → policy_post_init a ≡ ok p → IsPolicy p
policy_post_init-IsPolicy a p e = (checked-IsPolicy a).at p e

-- A policy within the bounds, as arguments.
abbrev pub optional : Option ℕ → Value
optional none = null
optional (some n) = int (pos n)

abbrev pub arguments_of : SizingPolicy → PolicyArguments
arguments_of p = record {
  target_concurrency = int (pos p.target_concurrency);
  maximum_concurrency = optional p.maximum_concurrency;
  headroom_percent = int (pos p.headroom_percent);
  prefix_blocks = int (pos p.prefix_blocks);
  alignment_blocks = int (pos p.alignment_blocks);
  min_bytes = optional p.min_bytes;
  max_bytes = optional p.max_bytes;
  strict_concurrency = bool p.strict_concurrency;
}

positive-ok : (n : ℕ) (field : String) → IsPositive n → uint_value (int (pos n)) field false ≡ ok n
unfolding uint_value uint
positive-ok n field h = ground arith

fits-ok : (n : ℕ) (field : String) → Fits n → uint_value (int (pos n)) field true ≡ ok n
unfolding uint_value uint
fits-ok n field h = ground arith

if_set-ok :
    (o : Option ℕ) (field : String) → IsPositiveIfSet o → uint_if_set (optional o) field ≡ ok o
unfolding uint_if_set uint_value uint
if_set-ok none field h = ground arith
if_set-ok (some n) field h = ground arith

Ordered-ok : (low high : Option ℕ) → Ordered low high → out_of_order low high ≡ false
Ordered-ok (some low) (some high) h = ge→ltb high low h
Ordered-ok none high h = ground arith
Ordered-ok (some low) none h = ground arith

-- The checks refuse no policy within these bounds, and store it as it was given.
pub policy_post_init-arguments_of :
    (p : SizingPolicy) → IsPolicy p → policy_post_init (arguments_of p) ≡ ok p
unfolding policy_post_init boolean
policy_post_init-arguments_of p h = rw (
  positive-ok p.target_concurrency "target_concurrency" h.target,
  if_set-ok p.maximum_concurrency "maximum_concurrency" h.maximum,
  Ordered-ok (some p.target_concurrency) p.maximum_concurrency h.maximum_above,
  fits-ok p.headroom_percent "headroom_percent" (omega (arith, h.percent)),
  ge→ltb 100 p.headroom_percent h.percent,
  fits-ok p.prefix_blocks "prefix_blocks" h.prefix,
  positive-ok p.alignment_blocks "alignment_blocks" h.alignment,
  if_set-ok p.min_bytes "min_bytes" h.min_positive,
  if_set-ok p.max_bytes "max_bytes" h.max_positive,
  Ordered-ok p.min_bytes p.max_bytes h.bytes_ordered,
)
