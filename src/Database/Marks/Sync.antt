-- ===== src/Database/Marks/Sync.antt =====
-- The running server and its row, after the marks of src/db.rs.
use xcplane.Common.{
  String, true, not, Option, none, some, List, string_eq, eq_iff, ◌≡◌, refl, sym, ap, ◌∙◌, subst,
  is_some, is_some-eq-true, ◌&&◌, arith, Option-cases, inl, inr,
}
use xcplane.Server.{ServerState, offgrid, AnsibleConn, KetServer}
use xcplane.Server.Methods.{ansible_port_default}
use xcplane.Database.Tables.{get}
use xcplane.Database.Update.{to_row}
use xcplane.Database.Marks.{Site, marked, site_of, mark_server_production, mark_server_offgrid}
use xcplane.Database.Marks.Agreement.{
  is_marked, remade, IsMarked, mark_server_production-is_marked, mark_server_offgrid-is_marked,
  mark_server_production-IsMarked, mark_server_offgrid-IsMarked,
}

-- The row of the server is what the running server says.
pub record IsSynced (site : Site) : Type 0 where
  pub row : get site.server.name site.db.servers ≡ some (to_row site.server)

marked-injective : {a b : Site} → marked a ≡ marked b → a ≡ b
marked-injective h = ap site_of h

marked-row :
    {state : ServerState} {token : Option String} {old new : Site}
    → IsMarked state token old new
    → new.server.name ≡ old.server.name
    → IsSynced old
    → get new.server.name new.db.servers
      ≡ some (record (to_row old.server) { state = state; xui_token = token })
marked-row {state} {token} {old} {new} marks name s =
    ap (λ n. get n new.db.servers) name
    ∙ marks.rows old.server.name
    ∙ ground (arith, eq_iff old.server.name old.server.name, s.row)

-- The parts that a mark needs, from its success.
production_parts :
    (token : String) (site : Site) {new : Site}
    → mark_server_production token site ≡ marked new
    → (conn : AnsibleConn) × (l : List (String × ServerState)) × (site.server.secrets.xui_token
        ≡ none)
      × (site.server.ansible_conn ≡ some conn)
      × (site.config ≡ some l)
production_parts token site {new} h =
    let ok : (not (is_some site.server.secrets.xui_token)
          && (is_some site.server.ansible_conn && is_some site.config))
        ≡ true =
      sym (mark_server_production-is_marked token site) ∙ ap is_marked h in
    let (conn, c) = is_some-eq-true site.server.ansible_conn (ground (arith, ok)) in
    let (l, f) = is_some-eq-true site.config (ground (arith, ok)) in
    (conn, l, ground (arith, ok), c, f)

config-some :
    {state : ServerState} {token : Option String} (old new : Site) {l : List (String × ServerState)}
    → IsMarked state token old new
    → old.config ≡ some l
    → is_some new.config ≡ true
config-some old new marks f = elim (Option-cases new.config) [
  | inl p ↦ let h = marks.states "" in let h' = (rw (p, f) at h) in cc
  | inr (x, p) ↦ rw p refl
]

-- A server that is marked as a production unit is, in the database, what it is in the running
-- cloud, when it was before.
pub mark_server_production-IsSynced :
    (token : String) (site : Site) {new : Site}
    → IsSynced site
    → mark_server_production token site ≡ marked new
    → IsSynced new
unfolding to_row
mark_server_production-IsSynced token site {new} s h =
    let (conn, l, t, c, f) = production_parts token site h in
    let (new', made, server, marks) = mark_server_production-IsMarked token site t c f in
    let same : new' ≡ new = marked-injective (sym made ∙ h) in
    subst IsSynced same (record {
      row =
          marked-row marks (ap (λ (x : KetServer). x.name) server) s
          ∙ ap (λ x. some (to_row x)) (sym server);
    })

-- The row of the running server without its token; and no mark as a production unit where there was
-- one.
pub record Retired (site new : Site) : Type 0 where
  pub row :
      get new.server.name new.db.servers
      ≡ some
          (to_row (record new.server { secrets = record new.server.secrets { xui_token = none } }))
  pub again :
      (token : String)
      → is_marked (mark_server_production token new) ≡ not (is_some site.server.secrets.xui_token)

IsMarked-Retired :
    (site new : Site) (conn : AnsibleConn) {l : List (String × ServerState)}
    → new.server
      ≡ remade offgrid site.server.secrets.xui_token ansible_port_default conn site.server
    → IsMarked offgrid none site new
    → site.config ≡ some l
    → IsSynced site
    → Retired site new
unfolding to_row
IsMarked-Retired site new conn server marks f s = record {
  row =
      marked-row marks (ap (λ (x : KetServer). x.name) server) s
      ∙ ap (λ x. some (to_row (record x { secrets = record x.secrets { xui_token = none } })))
          (sym server);
  again = λ token.
      mark_server_production-is_marked token new
      ∙ ap
          (λ x. not (is_some x.secrets.xui_token) && (is_some x.ansible_conn && is_some new.config))
          server
      ∙ ground (arith, config-some site new marks f);
}

-- After a destruction the row of the server is that of the running server without its token; and
-- the running server can be marked as a production unit again just when it had no token. The row
-- was that of the running server before.
pub mark_server_offgrid-Retired :
    (site : Site) {new : Site}
    → IsSynced site
    → mark_server_offgrid site ≡ marked new
    → Retired site new
mark_server_offgrid-Retired site {new} s h =
    let ok : (is_some site.server.ansible_conn && (is_some site.config && site.has_dir)) ≡ true =
      sym (mark_server_offgrid-is_marked site) ∙ ap is_marked h in
    let (conn, c) = is_some-eq-true site.server.ansible_conn (ground (arith, ok)) in
    let (l, f) = is_some-eq-true site.config (ground (arith, ok)) in
    let (new', made, server, gone, marks) =
      mark_server_offgrid-IsMarked site c f (ground (arith, ok)) in
    subst (Retired site) (marked-injective (sym made ∙ h))
      (IsMarked-Retired site new' conn server marks f s)
