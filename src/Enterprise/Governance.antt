-- ===== src/Enterprise/Governance.antt =====
-- `DataGovernance` of src/dnc/enterprise/operations.py.
use dynamic_neural_computing.Prelude.{
  ℕ, ◌≡◌, sym, ap, ◌∙◌, Bool, true, not, ◌==◌, ◌&&◌, Option, none, some, List, [], ◌∷◌, mem, Table,
  fetch, holds, put, fetch-put, Outcome, ok, raise, ◌>>=◌, require, value_error, permission_error,
  if◌then◌else◌, arith, Bool-cases, Option-cases, inl, inr,
}

pub record DataAsset : Type 0 where
  pub asset_id : ℕ
  pub tenant_id : ℕ
  pub residency : ℕ
  pub key_version : ℕ
  pub legal_hold : Bool
  pub deleted : Bool

pub record DataGovernance : Type 0 where
  pub assets : Table DataAsset

-- `DataGovernance()`
pub new_governance : DataGovernance
new_governance = record { assets = [] }

pub register : DataAsset → List ℕ → DataGovernance → Outcome DataGovernance
register asset allowed_residencies g =
    if not (mem asset.residency allowed_residencies)
    then raise permission_error
    else if holds asset.tenant_id asset.asset_id g.assets
    then raise value_error
    else ok (record { assets = put asset.tenant_id asset.asset_id asset g.assets })

pub rotate_key : ℕ → ℕ → ℕ → DataGovernance → Outcome DataGovernance
rotate_key asset_id tenant_id key_version g =
    require (fetch tenant_id asset_id g.assets) >>= λ asset. ok (record {
      assets = put tenant_id asset_id (record asset { key_version = key_version }) g.assets;
    })

pub delete : ℕ → ℕ → DataGovernance → Outcome DataGovernance
delete asset_id tenant_id g = require (fetch tenant_id asset_id g.assets) >>= λ asset.
    if asset.legal_hold
    then raise permission_error
    else ok (record { assets = put tenant_id asset_id (record asset { deleted = true }) g.assets })

-- Snapshots are copies, and a table is a value.
pub snapshot : DataGovernance → DataGovernance
snapshot g = g

pub restore : DataGovernance → DataGovernance → DataGovernance
restore state g = state

pub data Call : Type 0 where
  registers : DataAsset → List ℕ → Call
  rotates : (asset_id tenant_id key_version : ℕ) → Call
  deletes : (asset_id tenant_id : ℕ) → Call

-- What a call leaves: where it raises, the assets as they were.
abbrev pub left_by : Outcome DataGovernance → DataGovernance → DataGovernance
left_by (ok g') g = g'
left_by (raise e) g = g

unfoldable pub perform : Call → DataGovernance → DataGovernance
perform (registers asset allowed) g = left_by (register asset allowed g) g
perform (rotates i t version) g = left_by (rotate_key i t version g) g
perform (deletes i t) g = left_by (delete i t g) g

unfoldable pub run : List Call → DataGovernance → DataGovernance
unfolding perform
run [] g = g
run (c ∷ cs) g = run cs (perform c g)

-- An asset, but for the version of its key.
abbrev pub IsHeld : ℕ → ℕ → DataAsset → DataGovernance → Type 0
IsHeld t i asset g =
    (version : ℕ) × (fetch t i g.assets ≡ some (record asset { key_version = version }))

register-IsHeld :
    (t i : ℕ) (asset x : DataAsset) (allowed : List ℕ) (g : DataGovernance)
    → IsHeld t i asset g
    → IsHeld t i asset (left_by (register x allowed g) g)
unfolding register
register-IsHeld t i asset x allowed g h = elim (Bool-cases (mem x.residency allowed)) [
  | inr denied ↦ rw denied h
  | inl fine ↦ elim (Bool-cases (holds x.tenant_id x.asset_id g.assets)) [
    | inl known ↦ rw (fine, known) h
    | inr new ↦
        let (version, e) = h in
        rw (fine, new)
          (elim (Bool-cases (t == x.tenant_id && i == x.asset_id)) [
            | inl s ↦
                let here : fetch x.tenant_id x.asset_id g.assets
                    ≡ some (record asset { key_version = version }) =
                  ap (λ y. fetch y x.asset_id g.assets) (sym (ground (arith, s)))
                  ∙ ap (λ y. fetch t y g.assets) (sym (ground (arith, s)))
                  ∙ e in
                absurd (ground (arith, here, new))
            | inr f ↦
                (version, ground (arith, e, f, fetch-put t i x.tenant_id x.asset_id x g.assets))
          ])
  ]
]

rotate_key-IsHeld :
    (t i j u n : ℕ) (asset : DataAsset) (g : DataGovernance)
    → IsHeld t i asset g
    → IsHeld t i asset (left_by (rotate_key j u n g) g)
unfolding rotate_key
rotate_key-IsHeld t i j u n asset g h = elim (Option-cases (fetch u j g.assets)) [
  | inl missing ↦ rw missing h
  | inr (x, found) ↦
      let (version, e) = h in
      let next : DataAsset = record x { key_version = n } in
      rw found (elim (Bool-cases (t == u && i == j)) [
        | inl s ↦
            let met : fetch t i g.assets ≡ some x =
              ap (λ y. fetch y i g.assets) (ground (arith, s))
              ∙ ap (λ y. fetch u y g.assets) (ground (arith, s))
              ∙ found in
            let same : x ≡ record asset { key_version = version } =
              ap {A = Option DataAsset} (λ o. elim o [ none ↦ x | some y ↦ y ]) (sym met ∙ e) in
            (
              n,
              ground (arith, s, fetch-put t i u j next g.assets)
                  ∙ ap (λ (y : DataAsset). some (record y { key_version = n })) same,
            )
        | inr f ↦ (version, ground (arith, e, f, fetch-put t i u j next g.assets))
      ])
]

delete-IsHeld :
    (t i j u : ℕ) (asset : DataAsset) (g : DataGovernance)
    → asset.legal_hold ≡ true
    → IsHeld t i asset g
    → IsHeld t i asset (left_by (delete j u g) g)
unfolding delete
delete-IsHeld t i j u asset g hold h = elim (Option-cases (fetch u j g.assets)) [
  | inl missing ↦ rw missing h
  | inr (x, found) ↦ elim (Bool-cases x.legal_hold) [
    | inl held ↦ rw (found, held) h
    | inr free ↦
        let (version, e) = h in
        let next : DataAsset = record x { deleted = true } in
        rw (found, free)
          (elim (Bool-cases (t == u && i == j)) [
            | inl s ↦
                let met : fetch t i g.assets ≡ some x =
                  ap (λ y. fetch y i g.assets) (ground (arith, s))
                  ∙ ap (λ y. fetch u y g.assets) (ground (arith, s))
                  ∙ found in
                let same : x ≡ record asset { key_version = version } =
                  ap {A = Option DataAsset} (λ o. elim o [ none ↦ x | some y ↦ y ]) (sym met ∙ e) in
                absurd (ground (arith, ap (λ y. y.legal_hold) same, hold, free))
            | inr f ↦ (version, ground (arith, e, f, fetch-put t i u j next g.assets))
          ])
  ]
]

pub asset_stays :
    (calls : List Call) (t i : ℕ) (asset : DataAsset) (g : DataGovernance)
    → fetch t i g.assets ≡ some asset
    → asset.legal_hold ≡ true
    → IsHeld t i asset (run calls g)
unfolding run
asset_stays calls t i asset g e hold = held_by calls g (asset.key_version, e)
  where
    held_by :
        (cs : List Call) (g' : DataGovernance) → IsHeld t i asset g' → IsHeld t i asset (run cs g')
    held_by [] g' h = h
    held_by (registers x allowed ∷ cs) g' h =
        held_by cs (left_by (register x allowed g') g') (register-IsHeld t i asset x allowed g' h)
    held_by (rotates j u n ∷ cs) g' h =
        held_by cs (left_by (rotate_key j u n g') g') (rotate_key-IsHeld t i j u n asset g' h)
    held_by (deletes j u ∷ cs) g' h =
        held_by cs (left_by (delete j u g') g') (delete-IsHeld t i j u asset g' hold h)
