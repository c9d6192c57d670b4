-- ===== src/Client/Rpc/Ensured.antt =====
-- Postconditions of the calls of client.py that check an answer.
use kapsl_integrations.Prelude.{ℕ, List, Result, ok, err, refl, Ensures, Ensures-ok}
use kapsl_integrations.Prelude.Values.{Fields}
use kapsl_integrations.Contract.Checks.{Checked}
use kapsl_integrations.Client.Frame.{Event}
use kapsl_integrations.Client.Rpc.{ClientError, Call, wrapped, concluded, then_checked, requested}

pub Ensures-wrapped :
    {A : Type 0} (P : A → Type 0) (m : Checked A) → Ensures P m → Ensures P (wrapped m)
Ensures-wrapped P (ok a) e = Ensures-ok a (e.at a refl)
Ensures-wrapped P (err error) e = record { at = λ a h. cc }

-- The result of a checked call satisfies what its check ensures.
pub then_checked-Ensures :
    {A : Type 0} (P : A → Type 0) (check : Fields → List ℕ → Result ClientError A)
    (call : Call (Fields × List ℕ))
    → ((response : Fields) (handles : List ℕ) → Ensures P (check response handles))
    → Ensures P (then_checked check call).result
then_checked-Ensures P check call ensures = go call.result
  where
    concludes :
        (handles : List ℕ) (m : Result ClientError _)
        → Ensures P m
        → Ensures P (concluded handles call.held call.closed call.rest m).result
    concludes handles (ok a) e = e
    concludes handles (err error) e = e

    go :
        (result : Result ClientError (Fields × List ℕ))
        → Ensures P
            (then_checked check (record {
              result = result;
              held = call.held;
              closed = call.closed;
              rest = call.rest;
            })).result
    go (err error) = record { at = λ a h. cc }
    go (ok answer) = concludes answer.1 (check answer.0 answer.1) (ensures answer.0 answer.1)

pub requested-Ensures :
    {A B : Type 0} (P : A → Type 0) (events : List Event) (m : Checked B) (call : Call A)
    → Ensures P call.result
    → Ensures P (requested events m call).result
requested-Ensures P events (ok b) call e = e
requested-Ensures P events (err error) call e = record { at = λ a h. cc }
