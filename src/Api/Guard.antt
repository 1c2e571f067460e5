-- ===== src/Api/Guard.antt =====
-- Who may change the tables through the API.
use proxy_harv.Prelude.{true, false, Option, List, [], ◌≡◌, ◌≢◌, ◌⊎◌, refl, inl, inr, Bool-cases}
use proxy_harv.Text.{Bytes, str_eq, str_eq_iff, is_empty}
use proxy_harv.Runtime.{Runtime}
use proxy_harv.Floats.{Floats}
use proxy_harv.Model.{Tables}
use proxy_harv.Api.{
  Route, cities, nodes, node, sub, publishes, healthz, admin_list_sources, admin_post_source,
  admin_delete_source, admin_list_vantages, admin_post_vantage, admin_delete_vantage, Request, App,
  Reply, is_admin,
}
use proxy_harv.Api.Admin.{admin}
use proxy_harv.Api.Server.{handle_route, serve}

module _ (fl : Floats) (rt : Runtime) (app : App) (average : List (Option fl.F) → Option fl.F)
    (distinct : List Bytes → List Bytes) where
  -- The request does not carry the token of the server, or the server has none.
  abbrev pub IsStranger : Request → Type 0
  IsStranger r = (r.token ≢ app.admin_token) ⊎ (app.admin_token ≡ [])

  -- An answer that gives nothing and changes nothing.
  abbrev pub IsRefusal : Tables fl → Reply fl × Tables fl → Type 0
  IsRefusal db a = ((a.0.status ≡ 401) ⊎ (a.0.status ≡ 503)) × (a.1 ≡ db)

  public_unchanged :
      (route : Route) (query : Bytes → Bytes) (db : Tables fl)
      → is_admin route ≡ false
      → (handle_route fl rt app average distinct route query db).1 ≡ db
  unfolding handle_route is_admin
  public_unchanged cities query db e = refl
  public_unchanged nodes query db e = refl
  public_unchanged (node id) query db e = refl
  public_unchanged sub query db e = refl
  public_unchanged publishes query db e = refl
  public_unchanged healthz query db e = refl
  public_unchanged admin_list_sources query db e = refl
  public_unchanged (admin_post_source req) query db e = cc
  public_unchanged (admin_delete_source id) query db e = cc
  public_unchanged admin_list_vantages query db e = refl
  public_unchanged (admin_post_vantage req) query db e = cc
  public_unchanged (admin_delete_vantage id) query db e = cc

  admin-IsRefusal :
      (token : Bytes) (next : Reply fl × Tables fl) (db : Tables fl)
      → (token ≢ app.admin_token) ⊎ (app.admin_token ≡ [])
      → IsRefusal db (admin fl app token next db)
  unfolding admin
  admin-IsRefusal token next db (inr e) = rw (e, admin) (inr refl, refl)
  admin-IsRefusal token next db (inl other) = elim (Bool-cases (is_empty app.admin_token)) [
    | inl e ↦ rw (e, admin) (inr refl, refl)
    | inr e ↦ (elim (Bool-cases (str_eq token app.admin_token)) [
      | inl same ↦ absurd (other ((str_eq_iff token app.admin_token).0 same))
      | inr f ↦ rw (e, f, admin) (inl refl, refl)
    ])
  ]

  -- A request without the token of the server, or to a server that has none, changes no table; if its
  -- route is an admin route, it is refused with the status 401 or 503.
  pub serve-stranger :
      (r : Request) (db : Tables fl)
      → IsStranger r
      → ((serve fl rt app average distinct r db).1 ≡ db)
        × (is_admin r.route ≡ true → IsRefusal db (serve fl rt app average distinct r db))
  unfolding serve
  serve-stranger r db stranger = elim (Bool-cases (is_admin r.route)) [
    | inl e ↦
        let next = handle_route fl rt app average distinct r.route r.query db in
        let refused = admin-IsRefusal r.token next db stranger in
        rw (e, serve) (refused.1, λ same. refused)
    | inr e ↦ rw (e, serve) (public_unchanged r.route r.query db e, λ never. cc)
  ]
