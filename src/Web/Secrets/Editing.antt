-- ===== src/Web/Secrets/Editing.antt =====
-- `POST /secrets` of internal/web/handlers_secret.go and the form that edits what it stored.
use grafted_keys.Prelude.{
  ◌≡◌, ◌++◌, Bool, not, if◌then◌else◌, refl, sym, ap, ◌∙◌, true, false, [], Text, Bytes, codes,
  arith, same,
}
use grafted_keys.Exec.{continue, ok_injective, Exec, Result, ok, err, panicked}
use grafted_keys.Store.Schema.{World}
use grafted_keys.Crypto.{Primitives, IsLawful}
use grafted_keys.Vault.Secrets
use grafted_keys.Vault.Secrets.{SecretMeta, get_secret_full}
use grafted_keys.Vault.Secrets.Roundtrip.{create_secret-get_secret_full}
use grafted_keys.Auth.Sessions.{Session}
use grafted_keys.Web.Server.{
  Library, Request, form_value, Server, Response, respond, Body, Fragment, fragment, secret_node,
  secret_form, world_of, after_world, attempt, returned,
}
use grafted_keys.Web.Settings.{fail_response}
use grafted_keys.Web.Content.{answered, or_fail, no_content}
use grafted_keys.Web.Secrets.{create_secret, edit_secret_form, key_name, secret_added}

refused : (res : Response) → ok fail_response ≡ ok res → res.status ≡ 200 → ⊥
refused res h e = let g = ap (λ x. x.status) (ok_injective fail_response res h) in omega arith

-- A handler that answers with status 200 had no error from the vault.
pub answered_inversion :
    {A : Type 0} (m : Exec World A) (f : A → Exec Server Response) (s : Server) (res : Response)
    → (answered m f s).0 ≡ ok res
    → res.status ≡ 200
    → (a : A) × ((m (world_of s)).0 ≡ ok a)
      × (answered m f s ≡ f a (after_world s (m (world_of s)).1))
unfolding attempt
answered_inversion {A} m f s res h e = after (m (world_of s)).0 (after_world s (m (world_of s)).1) h
  where
    after :
        (x : Result A) (t : Server)
        → (continue (returned x) (or_fail f) t).0 ≡ ok res
        → (a : A) × (x ≡ ok a) × (continue (returned x) (or_fail f) t ≡ f a t)
    after (ok a) t k = (a, refl, refl)
    after (err panicked) t k = absurd (cc)
    after (err y) t k = absurd (refused res k e)

-- The identifier in the node of a secret.
abbrev node_id : Body → Text
node_id (fragment (secret_node node)) = node.id
node_id _ = []

abbrev answered_id : Result Response → Text
answered_id (ok res) = node_id res.body
answered_id (err e) = []

-- Of the three branches of the handler, the last one answered.
in_folder :
    (no_name in_env : Bool) (a b : Exec Server Response) (s : Server) (f : Fragment)
    → in_env ≡ false
    → ((if no_name then no_content else if in_env then a else b) s).0
      ≡ ok (respond 200 [] (fragment f))
    → (if no_name then no_content else if in_env then a else b) s ≡ b s
in_folder true in_env a b s f e h = absurd (cc)
in_folder false true a b s f e h = absurd (cc)
in_folder false false a b s f e h = refl

module _ (lib : Library) (p : Primitives) where
  -- The form that edits a secret posts to the address of the secret, and carries its identifier, the key
  -- as `normalizeKey` made it, and the value and the notes as they were sent: of a secret that `POST /secrets` put into a folder and answered with its
  -- node, later, while the database is the same and the driver does not fail.
  pub create_secret-edit_secret_form :
      IsLawful p
      → (r q : Request) (sess mine : Session) (dek : Bytes) (s later : Server) (node : SecretMeta)
      → same (form_value r (codes "environment_id")) [] ≡ true
      → (create_secret lib p r sess dek s).0 ≡ ok (respond 200 [] (fragment (secret_node node)))
      → q.path_id ≡ node.id
      → later.db ≡ (create_secret lib p r sess dek s).1.db
      → later.faults ≡ []
      → (edit_secret_form lib p q mine dek later).0
        ≡ ok (
            respond 200 [] (
              fragment (
                secret_form (record {
                  action = codes "/secrets/" ++ node.id;
                  target = codes "#detail-" ++ node.id;
                  swap = codes "innerHTML";
                  parent_field = [];
                  parent_id = [];
                  id = node.id;
                  name = key_name lib p r;
                  value = form_value r (codes "value");
                  notes = form_value r (codes "notes");
                }))))
  unfolding create_secret edit_secret_form attempt
  create_secret-edit_secret_form laws r q sess mine dek s later node e h i d f =
      let here =
        in_folder (same (key_name lib p r) [])
          (not (same (form_value r (codes "environment_id")) [])) _ _ s (secret_node node)
          (rw e refl) h in
      let (id, o, t) =
        answered_inversion
          (Secrets.create_secret p dek (form_value r (codes "folder_id")) (key_name lib p r)
            (form_value r (codes "value")) (form_value r (codes "notes")))
          (secret_added lib p r) s _ (sym (ap (λ x. x.0) here) ∙ h) refl in
      let mine_id = sym (ap (λ x. answered_id x.0) (here ∙ t)) ∙ ap answered_id h in
      let full =
        create_secret-get_secret_full p laws dek (form_value r (codes "folder_id"))
          (key_name lib p r) (form_value r (codes "value")) (form_value r (codes "notes")) id
          (world_of s) (world_of later) o (d ∙ ap (λ x. x.1.db) (here ∙ t)) f in
      rw (i, sym mine_id, full) refl
