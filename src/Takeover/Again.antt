-- ===== src/Takeover/Again.antt =====
-- handleGatewayAction of internal/controlapi/server.go, asked for again with an ID.
use opensurge_fnos.Base.{
  Bool, List, Option, String, [], ap, arith, false, if_holds, if◌then◌else◌, none, refl, some,
  subst, sym, true, ℕ, ◌&&◌, ◌||◌, ◌∙◌, ◌∷◌, ◌≡◌,
}
use opensurge_fnos.Exec.{Result, err, gets, ok, pure, ◌>>=◌}
use opensurge_fnos.Exec.Rules.{
  After, Ensures, Ensures-bind, Ensures-gets, Ensures-ok, Ensures-weaken,
}
use opensurge_fnos.Takeover.Actions.{
  create_failed_status, guards, handle_gateway_action, kind_text, known_or, launch,
  launch_operation,
}
use opensurge_fnos.Takeover.Begin.{operation_id}
use opensurge_fnos.Takeover.Store.{
  CreateErr, create_error, create_operation, create_refused, find_operation, load_recovery,
  operation, put_operation, save_operation,
}
use opensurge_fnos.Takeover.Types.{Operation, new_operation, valid_operation_id}
use opensurge_fnos.Takeover.World.{Action, M, Outside, Refusal, World, check, need, refuse}
use opensurge_fnos.Text.{Text, is_empty, text_eq, text_eq_refl}

find-put_operation :
    (id : Text) (op : Operation) (ops : List Operation)
    → op.id ≡ id
    → find_operation id (put_operation op ops) ≡ some op
unfolding find_operation put_operation
find-put_operation id op [] h =
    ground (arith, h, subst (λ t. text_eq id t ≡ true) (sym h) (text_eq_refl id))
find-put_operation id op (x ∷ ops) h =
    let same : text_eq id op.id ≡ true =
      subst (λ t. text_eq id t ≡ true) (sym h) (text_eq_refl id) in
    if_holds (λ l. find_operation id l ≡ some op) (text_eq op.id x.id) (op ∷ ops)
      (x ∷ put_operation op ops) (λ e. ground (arith, same))
      λ e.
        let other : text_eq id x.id ≡ false = subst (λ t. text_eq t x.id ≡ false) h e in
        ground (arith, other, find-put_operation id op ops h)

-- What is known when an action has been answered with `op`.
abbrev Found : Action → Text → Operation → World → Type 0
Found a id op w =
    (valid_operation_id id ≡ true)
    × (text_eq op.kind (kind_text a) ≡ true)
    × (find_operation id w.operations ≡ some op)

abbrev Any : Refusal → World → Type 0
Any e w = Unit

const_After :
    {A : Type 0} (F : Type 0) (r : Result Refusal A) (w : World) → F → After (λ a w. F) Any r w
const_After F (ok a) w f = f
const_After F (err e) w f = tt

-- What does not speak of the world stays true.
Ensures-const : {A : Type 0} (F : Type 0) (m : M A) → Ensures (λ w. F) m (λ a w. F) Any
Ensures-const F m = record { at = λ w f. const_After F (m w).0 (m w).1 f }

check_passes :
    {P : World → Type 0} (b : Bool) (status : ℕ) (code : String)
    → Ensures P (check b status code) (λ u w. P w × (b ≡ true)) Any
unfolding check refuse
check_passes true status code = record { at = λ w p. (p, refl) }
check_passes false status code = record { at = λ w p. tt }

known_operation :
    (id : Text) (b : Bool) (ops : List Operation) (op : Operation)
    → some op ≡ (if b then find_operation id ops else none)
    → find_operation id ops ≡ some op
known_operation id b ops op h = ground arith

created_saves :
    (o : Outside) (op : Operation) (ops : List Operation)
    → create_error o op ops ≡ none
    → (valid_operation_id op.id ≡ true) × (o.saves_operation ≡ true)
unfolding create_error
created_saves o op ops h = ground arith

-- An operation that has been created is the one of its ID.
abbrev Created : Operation → World → Type 0
Created op w = (valid_operation_id op.id ≡ true) × (find_operation op.id w.operations ≡ some op)

refused_none :
    (status : CreateErr → ℕ) (o : Outside) (op : Operation) (e : Option CreateErr)
    → Ensures
        (λ w. e ≡ create_error o op w.operations)
        (create_refused status e)
        (λ u w. create_error o op w.operations ≡ none)
        Any
unfolding create_refused refuse
refused_none status o op none = record { at = λ w p. sym p }
refused_none status o op (some e) = record { at = λ w p. tt }

save_operation-Created :
    (o : Outside) (op : Operation)
    → Ensures
        (λ w. create_error o op w.operations ≡ none)
        (save_operation o op)
        (λ u. Created op)
        Any
unfolding save_operation
save_operation-Created o op = record {
  at = λ w p.
      let passed = created_saves o op w.operations p in
      let both_hold : valid_operation_id op.id && o.saves_operation ≡ true =
        ground (arith, passed.0, passed.1) in
      (
        passed.0,
        subst
            (λ b.
              find_operation op.id (if b then put_operation op w.operations else w.operations)
              ≡ some op)
            (sym both_hold) (find-put_operation op.id op w.operations refl),
      );
}

create_operation-Created :
    (status : CreateErr → ℕ) (o : Outside) (op : Operation)
    → Ensures (λ w. Unit) (create_operation status o op) (λ u. Created op) Any
unfolding create_operation
create_operation-Created status o op =
    Ensures-bind
      (Ensures-gets (λ e w. e ≡ create_error o op w.operations)
        (λ w. create_error o op w.operations) (λ w p. refl))
      λ e. Ensures-bind (refused_none status o op e) λ u. save_operation-Created o op

launch-Found :
    (o : Outside) (a : Action) (id : Text)
    → operation_id o id ≡ id
    → Ensures (λ w. Unit) (launch o a id) (Found a id) Any
unfolding launch launch_operation new_operation
launch-Found o a id same = Ensures-bind (Ensures-const Unit _) λ held.
    Ensures-bind (Ensures-const Unit _) λ u.
      Ensures-bind (Ensures-const Unit (need o.config 400 "config_invalid")) λ c.
        Ensures-bind (Ensures-const Unit load_recovery) λ state.
          Ensures-bind (Ensures-const Unit (guards a o c state)) λ u'.
            Ensures-bind
              (create_operation-Created create_failed_status o
                (new_operation o.now (operation_id o id) (kind_text a)))
              λ u''. record {
                at = λ w p. (
                  subst (λ i. valid_operation_id i ≡ true) same p.0,
                  text_eq_refl (kind_text a),
                  subst
                      (λ i.
                        find_operation i w.operations
                        ≡ some (new_operation o.now (operation_id o id) (kind_text a)))
                      same p.1,
                );
              }

known_or-Found :
    (o : Outside) (a : Action) (id : Text) (x : Option Operation)
    → operation_id o id ≡ id
    → valid_operation_id id ≡ true
    → Ensures (λ w. x ≡ operation o id w.operations) (known_or a x (launch o a id)) (Found a id) Any
unfolding known_or operation ◌>>=◌
known_or-Found o a id none same v =
    Ensures-weaken (launch-Found o a id same) (λ w p. tt) (λ op w f. f) (λ e w f. f)
known_or-Found o a id (some op) same v =
    Ensures-bind
      (check_passes {P = λ w. some op ≡ operation o id w.operations} (text_eq op.kind (kind_text a))
        409 "operation_id_conflict")
      λ u. record { at = λ w p. (v, p.1, known_operation id _ w.operations op p.0) }

valid_unless_empty : (e v : Bool) → e ≡ false → e || v ≡ true → v ≡ true
valid_unless_empty e v h k = ground arith

given_id : (o : Outside) (id : Text) → is_empty id ≡ false → operation_id o id ≡ id
unfolding operation_id
given_id o id h = ground arith

handle_gateway_action-Found :
    (o : Outside) (a : Action) (id : Text)
    → is_empty id ≡ false
    → Ensures (λ w. Unit) (handle_gateway_action o a id) (Found a id) Any
unfolding handle_gateway_action operation
handle_gateway_action-Found o a id h =
    Ensures-bind
      (check_passes {P = λ w. Unit} (is_empty id || valid_operation_id id) 400
        "invalid_operation_id")
      λ u.
        Ensures-bind
          (Ensures-gets
            (λ x w.
              (x ≡ operation o id w.operations) × (is_empty id || valid_operation_id id ≡ true))
            _ λ w p. (refl, p.1))
          λ x. record {
            at = λ w p.
                (known_or-Found o a id x (given_id o id h)
                    (valid_unless_empty (is_empty id) _ h p.1)).at
                  w p.0;
          }

passed_check :
    {A : Type 0} (b : Bool) (status : ℕ) (code : String) (k : Unit {0} → M A) (w : World)
    → b ≡ true
    → (check b status code >>= k) w ≡ k tt w
unfolding check refuse ◌>>=◌
passed_check true status code k w h = refl
passed_check false status code k w h = ground arith

found_operation :
    (o : Outside) (id : Text) (op : Operation) (w : World)
    → o.reads_operation ≡ true
    → (valid_operation_id id ≡ true) × (find_operation id w.operations ≡ some op)
    → operation o id w.operations ≡ some op
unfolding operation
found_operation o id op w r f = ground (arith, f.0, f.1)

known_again :
    (o : Outside) (a : Action) (id : Text) (op : Operation) (w : World)
    → o.reads_operation ≡ true
    → Found a id op w
    → handle_gateway_action o a id w ≡ (ok op, w)
unfolding handle_gateway_action ◌>>=◌ known_or
known_again o a id op w r f =
    let passes : is_empty id || valid_operation_id id ≡ true = ground (arith, f.0) in
    (passed_check _ 400 "invalid_operation_id"
      (λ u. gets (λ w'. operation o id w'.operations) >>= λ x. known_or a x (launch o a id)) w
      passes)
    ∙ (ap (λ x. known_or a x (launch o a id) w) (found_operation o id op w r (f.0, f.2)))
    ∙ (passed_check (text_eq op.kind (kind_text a)) 409 "operation_id_conflict" (λ u. pure op) w
        f.1)

-- A lifecycle action that is asked for again at once, with the same ID, which is not empty, gets the
-- operation of the first answer and changes nothing, if the operation can be read.
pub action_again :
    (o o' : Outside) (a : Action) (id : Text) (op : Operation) (w : World)
    → is_empty id ≡ false
    → o'.reads_operation ≡ true
    → (handle_gateway_action o a id w).0 ≡ ok op
    → handle_gateway_action o' a id (handle_gateway_action o a id w).1
      ≡ (ok op, (handle_gateway_action o a id w).1)
action_again o o' a id op w h r e =
    known_again o' a id op (handle_gateway_action o a id w).1 r
      (Ensures-ok (handle_gateway_action-Found o a id h) w tt e)
