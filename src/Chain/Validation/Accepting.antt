-- ===== src/Chain/Validation/Accepting.antt =====
-- What it takes for the records of a call to pass validation.
use holo_web_conductor.Common.{
  ◌≡◌, refl, ap, Bool, true, false, Option, none, some, List, [], ◌∷◌, All, ◌↔◌, if◌then◌else◌,
}
use holo_web_conductor.Dht.OpTypes.{ChainOpType, action_to_op_types}
use holo_web_conductor.Chain.Types.{}
use holo_web_conductor.Chain.Hash.{Crypto}
use holo_web_conductor.Chain.HostFunctions.{PendingRecord}
use holo_web_conductor.Chain.Storage.Tables.{Db}
use holo_web_conductor.Chain.Records.{stored_action_to_client_action}
use holo_web_conductor.Chain.Validation.{
  Op, IntegrityZome, ValidateResult, valid, Rules, resolve_create_link, build_op_from_record,
  get_zomes_to_invoke, is_valid, zomes_accept, ops_accepted, invoke_inline_validation,
}

-- A zome with code finds the operation valid.
abbrev pub Accepts : Rules → Op → IntegrityZome → Type 0
Accepts rules op z = z.has_wasm ≡ true → rules.validate z.name op ≡ valid

abbrev pub OpAccepted : Rules → Db → Option Op → Type 0
OpAccepted rules db none = Unit
OpAccepted rules db (some op) = All (Accepts rules op) (get_zomes_to_invoke rules db op)

-- Every operation that a record gives is valid for every zome that is asked.
abbrev pub RecordAccepted : Crypto → Rules → Db → PendingRecord → Type 0
RecordAccepted crypto rules db r =
    All (λ type. OpAccepted rules db (build_op_from_record (resolve_create_link rules db) r type))
      (action_to_op_types (stored_action_to_client_action crypto r.action))

-- A test and then the rest, against what they are to say.
both_iff :
    (x y : Bool) (P Q : Type 0)
    → ((x ≡ true) ↔ P)
    → ((y ≡ true) ↔ Q)
    → ((if x then y else false) ≡ true) ↔ (P × Q)
both_iff true y P Q p q = (λ e. (p.0 refl, q.0 e), λ h. q.1 h.1)
both_iff false y P Q p q = (λ e. cc, λ h. p.1 h.0)

-- The same behind a guard.
guarded_iff :
    (b x y : Bool) (P Q : Type 0)
    → ((x ≡ true) ↔ P)
    → ((y ≡ true) ↔ Q)
    → ((if b then (if x then y else false) else y) ≡ true) ↔ ((b ≡ true → P) × Q)
guarded_iff true x y P Q p q =
    let k = both_iff x y P Q p q in
    (λ e. let (l, r) = k.0 e in (λ w. l, r), λ h. k.1 (h.0 refl, h.1))
guarded_iff false x y P Q p q = (λ e. (λ w. cc, q.0 e), λ h. q.1 h.1)

is_valid-valid : (v : ValidateResult) → is_valid v ≡ true → v ≡ valid
is_valid-valid valid e = refl
is_valid-valid ValidateResult.invalid e = cc
is_valid-valid ValidateResult.unresolved e = cc

zomes_accept_iff :
    (rules : Rules) (op : Op) (zomes : List IntegrityZome)
    → (zomes_accept rules op zomes ≡ true) ↔ All (Accepts rules op) zomes
unfolding zomes_accept
zomes_accept_iff rules op [] = (λ e. tt, λ h. refl)
zomes_accept_iff rules op (z ∷ zomes) =
    guarded_iff z.has_wasm (is_valid (rules.validate z.name op)) (zomes_accept rules op zomes)
      (rules.validate z.name op ≡ valid) (All (Accepts rules op) zomes)
      (is_valid-valid (rules.validate z.name op), λ e. ap is_valid e)
      (zomes_accept_iff rules op zomes)

OpAccepted-step :
    (rules : Rules) (db : Db) (o : Option Op) (rest : Bool) (Q : Type 0)
    → ((rest ≡ true) ↔ Q)
    → ((elim o [
      | none ↦ rest
      | some op ↦ if zomes_accept rules op (get_zomes_to_invoke rules db op) then rest else false
    ])
        ≡ true)
      ↔ (OpAccepted rules db o × Q)
OpAccepted-step rules db none rest Q q = (λ e. (tt, q.0 e), λ h. q.1 h.1)
OpAccepted-step rules db (some op) rest Q q =
    both_iff (zomes_accept rules op (get_zomes_to_invoke rules db op)) rest
      (OpAccepted rules db (some op)) Q
      (zomes_accept_iff rules op (get_zomes_to_invoke rules db op)) q

ops_accepted_iff :
    (rules : Rules) (db : Db) (r : PendingRecord) (types : List ChainOpType)
    → (ops_accepted rules db r types ≡ true)
      ↔ All
          (λ type. OpAccepted rules db (build_op_from_record (resolve_create_link rules db) r type))
          types
unfolding ops_accepted
ops_accepted_iff rules db r [] = (λ e. tt, λ h. refl)
ops_accepted_iff rules db r (type ∷ types) =
    OpAccepted-step rules db (build_op_from_record (resolve_create_link rules db) r type)
      (ops_accepted rules db r types)
      (All (λ t. OpAccepted rules db (build_op_from_record (resolve_create_link rules db) r t))
        types)
      (ops_accepted_iff rules db r types)

-- Validation passes exactly if every operation of every record that can be built is valid for
-- every zome with code among those that decide on it.
pub invoke_inline_validation_iff :
    (crypto : Crypto) (rules : Rules) (db : Db) (records : List PendingRecord)
    → (invoke_inline_validation crypto rules db records ≡ true)
      ↔ All (RecordAccepted crypto rules db) records
unfolding invoke_inline_validation
invoke_inline_validation_iff crypto rules db [] = (λ e. tt, λ h. refl)
invoke_inline_validation_iff crypto rules db (r ∷ records) =
    both_iff
      (ops_accepted rules db r
        (action_to_op_types (stored_action_to_client_action crypto r.action)))
      (invoke_inline_validation crypto rules db records) (RecordAccepted crypto rules db r)
      (All (RecordAccepted crypto rules db) records)
      (ops_accepted_iff rules db r
        (action_to_op_types (stored_action_to_client_action crypto r.action)))
      (invoke_inline_validation_iff crypto rules db records)
