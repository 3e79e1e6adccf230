-- ===== src/Web/Routes/Reading.antt =====
-- `routes` of internal/web/server.go: what a request does that needs no token.
use grafted_keys.Prelude.{
  ◌≡◌, refl, sym, true, false, Option, none, some, List, [], ◌∷◌, ◌++◌, Text, Bytes, All,
}
use mathlib.Core.Path.{subst}
use grafted_keys.Exec.{Exec, Result}
use grafted_keys.Auth.Sessions.{Session}
use grafted_keys.Web.Server.{
  Library, Method, method_get, method_head, method_options, method_post, method_delete, Request,
  Server, Response,
}
use grafted_keys.Web.Middleware.{Handler, Gated, is_read, csrf_mw, recover_mw}
use grafted_keys.Web.Serving.{session_of, entered, looked_up, serve_enters}
use grafted_keys.Web.Reads.{
  Reads, Reads-pure, Unchanged, Unchanged-trans, unchanged, Unchanged-but_sessions,
}
use grafted_keys.Web.Reads.Handlers.{
  Reads-home, Reads-view_project, Reads-search_secrets, Reads-edit_project_form,
  Reads-edit_environment_form, Reads-edit_folder_form, Reads-edit_secret_form,
  Reads-show_secret_detail, Reads-secret_notes, Reads-reveal_secret, Reads-copy_secret,
  Reads-download_attachment, Reads-settings, Reads-get_setup, Reads-get_unlock, Reads-need_dek,
  Reads-download_backup,
}
use grafted_keys.Web.Routes.Dispatch.{Answers, answers, All-++}
use grafted_keys.Web.Routes.{
  Segment, Entry, gated_entry, entry_handler, Route, takes, Wiring, open_routes, tree_routes,
  secret_routes, settings_routes, routes, mux, handle,
}

-- What a route does for a method that `csrfMW` lets pass without a token.
record RouteReads (route : Route) : Type 0 where
  at :
      (m : Method) (r : Request) (o : Option Session)
      → is_read m ≡ true
      → takes route.method m ≡ true
      → Reads (entry_handler route.entry r o)

gets :
    (pattern : List Segment) (e : Entry)
    → ((r : Request) (o : Option Session) → Reads (entry_handler e r o))
    → RouteReads (record { method = method_get; pattern = pattern; entry = e })
gets pattern e k = record { at = λ m r o g t. k r o }

gets_gated :
    (pattern : List Segment) (fn : Gated)
    → ((r : Request) (sess : Session) (dek : Bytes) → Reads (fn r sess dek))
    → RouteReads (record { method = method_get; pattern = pattern; entry = gated_entry fn })
gets_gated pattern fn k = gets pattern (gated_entry fn) λ r o. Reads-need_dek fn r o (k r)

writes :
    (method : Method) (pattern : List Segment) (e : Entry)
    → ((m : Method) → is_read m ≡ true → takes method m ≡ false)
    → RouteReads (record { method = method; pattern = pattern; entry = e })
writes method pattern e never = record { at = λ m r o g t. let n = never m g in absurd (cc) }

post_never : (m : Method) → is_read m ≡ true → takes method_post m ≡ false
post_never method_get g = refl
post_never method_head g = refl
post_never method_options g = refl
post_never method_post g = sym g
post_never method_delete g = refl

delete_never : (m : Method) → is_read m ≡ true → takes method_delete m ≡ false
delete_never method_get g = refl
delete_never method_head g = refl
delete_never method_options g = refl
delete_never method_post g = refl
delete_never method_delete g = sym g

posts :
    (pattern : List Segment) (e : Entry)
    → RouteReads (record { method = method_post; pattern = pattern; entry = e })
posts pattern e = writes method_post pattern e post_never

deletes :
    (pattern : List Segment) (e : Entry)
    → RouteReads (record { method = method_delete; pattern = pattern; entry = e })
deletes pattern e = writes method_delete pattern e delete_never

module _ (w : Wiring) where
  open_routes-RouteReads : All RouteReads (open_routes w)
  open_routes-RouteReads = (
    gets _ _ (λ r o. Reads-pure _),
    (
      gets _ _ (λ r o. Reads-pure _),
      (
        gets _ _ (Reads-get_setup w.cfg w.lib w.primitives),
        (
          posts _ _,
          (
            gets _ _ (Reads-get_unlock w.cfg w.lib w.primitives),
            (posts _ _, (posts _ _, (posts _ _, tt))),
          ),
        ),
      ),
    ),
  )

  tree_routes-RouteReads : All RouteReads (tree_routes w)
  tree_routes-RouteReads = (
    gets_gated _ _ (λ r sess dek. Reads-home w.lib w.primitives r sess dek),
    (
      gets_gated _ _ (λ r sess dek. Reads-view_project w.lib w.primitives r sess dek),
      (
        gets_gated _ _ (λ r sess dek. Reads-search_secrets w.lib w.primitives r sess dek),
        (
          posts _ _,
          (
            gets_gated _ _ (λ r sess dek. Reads-edit_project_form w.lib w.primitives r sess dek),
            (
              posts _ _,
              (
                deletes _ _,
                (
                  gets_gated _ _ (λ r sess dek. Reads-pure _),
                  (
                    posts _ _,
                    (
                      gets_gated _ _
                          (λ r sess dek. Reads-edit_environment_form w.lib w.primitives r sess dek),
                      (
                        posts _ _,
                        (
                          deletes _ _,
                          (
                            gets_gated _ _ (λ r sess dek. Reads-pure _),
                            (
                              gets_gated _ _ (λ r sess dek. Reads-pure _),
                              (
                                gets_gated _ _ (λ r sess dek. Reads-pure _),
                                (
                                  posts _ _,
                                  (
                                    gets_gated _ _ (λ r sess dek.
                                        Reads-edit_folder_form w.lib w.primitives r sess dek),
                                    (posts _ _, (deletes _ _, tt)),
                                  ),
                                ),
                              ),
                            ),
                          ),
                        ),
                      ),
                    ),
                  ),
                ),
              ),
            ),
          ),
        ),
      ),
    ),
  )

  secret_routes-RouteReads : All RouteReads (secret_routes w)
  secret_routes-RouteReads = (
    gets_gated _ _ (λ r sess dek. Reads-pure _),
    (
      gets_gated _ _ (λ r sess dek. Reads-pure _),
      (
        posts _ _,
        (
          posts _ _,
          (
            gets_gated _ _ (λ r sess dek. Reads-edit_secret_form w.lib w.primitives r sess dek),
            (
              posts _ _,
              (
                deletes _ _,
                (
                  gets_gated _ _
                      (λ r sess dek. Reads-show_secret_detail w.lib w.primitives r sess dek),
                  (
                    gets_gated _ _ (λ r sess dek. Reads-secret_notes w.lib w.primitives r sess dek),
                    (
                      gets_gated _ _
                          (λ r sess dek. Reads-reveal_secret w.lib w.primitives r sess dek),
                      (
                        gets_gated _ _ (λ r sess dek. Reads-pure _),
                        (
                          gets_gated _ _
                              (λ r sess dek. Reads-copy_secret w.lib w.primitives r sess dek),
                          (
                            posts _ _,
                            (
                              gets_gated _ _ (λ r sess dek. Reads-pure _),
                              (
                                posts _ _,
                                (
                                  gets_gated _ _ (λ r sess dek.
                                      Reads-download_attachment w.lib w.primitives r sess dek),
                                  (deletes _ _, tt),
                                ),
                              ),
                            ),
                          ),
                        ),
                      ),
                    ),
                  ),
                ),
              ),
            ),
          ),
        ),
      ),
    ),
  )

  settings_routes-RouteReads : All RouteReads (settings_routes w)
  settings_routes-RouteReads = (
    gets_gated _ _ (λ r sess dek. Reads-settings w.cfg w.lib w.primitives r sess dek),
    (
      posts _ _,
      (
        posts _ _,
        (
          posts _ _,
          (
            posts _ _,
            (
              posts _ _,
              (
                posts _ _,
                (posts _ _, (posts _ _, (gets_gated _ _ Reads-download_backup, (posts _ _, tt)))),
              ),
            ),
          ),
        ),
      ),
    ),
  )

  routes-RouteReads : All RouteReads (routes w)
  routes-RouteReads =
      All-++ RouteReads (open_routes w) (tree_routes w ++ (secret_routes w ++ settings_routes w))
        open_routes-RouteReads
        (All-++ RouteReads (tree_routes w) (secret_routes w ++ settings_routes w)
          tree_routes-RouteReads
          (All-++ RouteReads (secret_routes w) (settings_routes w) secret_routes-RouteReads
            settings_routes-RouteReads))

reading_rows :
    (path : List Text) (r : Request) (o : Option Session) (rows : List Route)
    → is_read r.method ≡ true
    → All RouteReads rows
    → All (Answers Reads path r o) rows
reading_rows path r o [] g k = tt
reading_rows path r o (route ∷ rows) g k = (
  record { at = λ v t m. k.0.at r.method (record r { path_id = v }) o g t },
  reading_rows path r o rows g k.1,
)

pub looked_up-Unchanged : (id : Option Text) (s : Server) → Unchanged s (looked_up id s)
looked_up-Unchanged none s = unchanged s
looked_up-Unchanged (some id) s = Unchanged-but_sessions s _

csrf_mw_read :
    (lib : Library) (h : Handler) (r : Request) (o : Option Session)
    → is_read r.method ≡ true
    → csrf_mw lib h r o ≡ h r o
unfolding csrf_mw
csrf_mw_read lib h r o g = rw g refl

-- A request with a method that needs no token, whatever its path and its session, leaves everything that lasts as it
-- was: the database, the files of backups and of data, the login limiter, the schedule of backups, and whether a
-- restart was asked for. The sessions and the random source may have changed.
pub handle_reads :
    (w : Wiring) (path : List Text) (r : Request) (s : Server)
    → is_read r.method ≡ true
    → Unchanged s (handle w path r s).1
unfolding handle recover_mw
handle_reads w path r s g =
    subst (λ (x : Result Response × Server). Unchanged s x.1)
      (sym (serve_enters w.cfg w.lib (mux (routes w) path false) r s))
      (Unchanged-trans s (entered w.cfg r s) _ (looked_up-Unchanged _ s) (
        subst
          (λ (m : Exec Server Response). Unchanged (entered w.cfg r s) (m (entered w.cfg r s)).1)
          (sym (csrf_mw_read w.lib (mux (routes w) path false) r (session_of w.cfg r s) g))
          ((answers Reads path r (session_of w.cfg r s) (Reads-pure _) (Reads-pure _) (routes w)
              false
              (reading_rows path r (session_of w.cfg r s) (routes w) g (routes-RouteReads w))).at
            (entered w.cfg r s))))
