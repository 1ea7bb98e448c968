-- ===== src/Build/Store/Pending.antt =====
-- `OperationStore.pending`: the rows that the reconciler works on, oldest first.
use Prim.Native.Nat.{Ordering, compare}
use Prim.Native.String.{compare as compare_text}
use layerrail_deploy.Prelude.{Bool, true, false, List, [], ◌∷◌, if◌then◌else◌}
use layerrail_deploy.Effect.{gets}
use layerrail_deploy.Build.Store.{Operation, Action}
use layerrail_deploy.Build.Store.Methods.{is_pending}

-- `ORDER BY created_at, build_id`: may `a` stand before `b`?
unfoldable pub before : Operation → Operation → Bool
before a b = elim (compare a.created_at b.created_at) [
  | Ordering.lt ↦ true
  | Ordering.eq ↦ elim (compare_text a.build_id b.build_id) [ Ordering.gt ↦ false | _ ↦ true ]
  | Ordering.gt ↦ false
]

unfoldable pub insert_row : Operation → List Operation → List Operation
unfolding before
insert_row o [] = o ∷ []
insert_row o (p ∷ rows) =
    let rest = insert_row o rows in if before o p then o ∷ p ∷ rows else p ∷ rest

unfoldable pub pending_rows : List Operation → List Operation
unfolding insert_row is_pending
pending_rows [] = []
pending_rows (o ∷ rows) =
    let rest = pending_rows rows in if is_pending o then insert_row o rest else rest

unfoldable pub pending : Action (List Operation)
unfolding pending_rows
pending = gets (λ s. pending_rows s.rows)
