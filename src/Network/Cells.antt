-- ===== src/Network/Cells.antt =====
-- When the cell towers are posted: NetworkPositionProvider::parseCellData
-- (src/handler/position/network/NetworkPositionProvider.cpp). The towers come parsed: "registered"
-- as `jboolean_get` reads it and "cellId" as `jnumber_get_i32` does, if they are there.
use com_webos_service_locati.Base.{
  Bool, true, false, Option, none, some, List, [], ◌∷◌, ◌≡◌, refl, if◌then◌else◌, arith,
  Option-cases, Bool-cases, inl, inr,
}
use com_webos_service_locati.Base.Int.{ℤ, eq_ℤ}

pub record Tower : Type 0 where
  pub registered : Option Bool
  pub cell_id : Option ℤ

-- The document: it may not parse, "cellTowers" may be missing, or be no array.
pub data CellInfo : Type 0 where
  malformed no_towers not_array : CellInfo
  towers : List Tower → CellInfo

-- The variable `state` keeps its value where a tower has no "registered".
pub read_state : Bool → Option Bool → Bool
read_state state none = state
read_state state (some b) = b

-- `cellID != mPositionData.curCellid` for a tower that is registered and says so.
pub visit : Bool → Tower → ℤ × Bool → ℤ × Bool
visit state t (cur, changed) = elim t.registered [
  | none ↦ (cur, changed)
  | some _ ↦ elim t.cell_id [
    | none ↦ (cur, changed)
    | some id ↦
        if state then (if eq_ℤ id cur then (cur, changed) else (id, true)) else (cur, changed)
  ]
]

-- The loop: it ends behind the first tower after which `state` holds.
pub visit_towers : Bool → List Tower → ℤ × Bool → ℤ × Bool
unfolding read_state visit
visit_towers state [] acc = acc
visit_towers state (t ∷ ts) acc =
    let state' = read_state state t.registered in
    let acc' = visit state' t acc in
    let rest = visit_towers state' ts acc' in if state' then acc' else rest

-- The current cell and whether the towers are put into the query.
pub parse_cell_data : Option CellInfo → ℤ → ℤ × Bool
unfolding visit_towers
parse_cell_data none cur = (cur, false)
parse_cell_data (some malformed) cur = (cur, false)
parse_cell_data (some no_towers) cur = (cur, false)
parse_cell_data (some not_array) cur = (cur, false)
parse_cell_data (some (towers ts)) cur = visit_towers false ts (cur, false)

-- The specification: the tower that the phone is registered with is the first one that says so.
abbrev pub serving_cell : List Tower → Option ℤ
serving_cell [] = none
serving_cell (t ∷ ts) = elim t.registered [
  | none ↦ serving_cell ts
  | some b ↦ if b then t.cell_id else serving_cell ts
]

visit_towers-serving :
    (ts : List Tower) (cur : ℤ)
    → visit_towers false ts (cur, false) ≡ (elim (serving_cell ts) [
      | none ↦ (cur, false)
      | some id ↦ if eq_ℤ id cur then (cur, false) else (id, true)
    ])
unfolding visit_towers
visit_towers-serving [] cur = refl
visit_towers-serving (t ∷ ts) cur = ground (arith, visit_towers-serving ts cur)

visited_again :
    (ts : List Tower) (cur : ℤ)
    → (visit_towers false ts (
      (elim (serving_cell ts) as (λ o. ℤ × Bool) [
        | none ↦ (cur, false)
        | some id ↦ if eq_ℤ id cur then (cur, false) else (id, true)
      ]).0,
      false,
    )).1
      ≡ false
visited_again ts cur = elim (Option-cases (serving_cell ts)) [
  | inl e ↦ ground (arith, e, visit_towers-serving ts cur)
  | inr (id, e) ↦ elim (Bool-cases (eq_ℤ id cur)) [
    | inl f ↦ ground (arith, e, f, visit_towers-serving ts cur)
    | inr f ↦ ground (arith, e, f, visit_towers-serving ts id)
  ]
]

-- Towers are put into the query exactly when the tower that the phone is registered with has a cell
-- id, and it is not the current one; it is the current one then, so the same towers are not put
-- into the query a second time.
pub parse_cell_data_serving :
    (ts : List Tower) (cur : ℤ)
    → (parse_cell_data (some (towers ts)) cur ≡ (elim (serving_cell ts) [
      | none ↦ (cur, false)
      | some id ↦ if eq_ℤ id cur then (cur, false) else (id, true)
    ]))
      × ((parse_cell_data (some (towers ts)) (parse_cell_data (some (towers ts)) cur).0).1 ≡ false)
unfolding parse_cell_data
parse_cell_data_serving ts cur =
    (visit_towers-serving ts cur, rw (visit_towers-serving ts cur) (visited_again ts cur))
