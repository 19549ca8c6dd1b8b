-- ===== src/Tests/Store.antt =====
-- The calls as the API server documents them, over a list of the objects: the creation of an object
-- whose name is taken is refused.
use samba_operator.Base.{
  ◌≡◌, ◌==◌, ◌&&◌, Bool, false, Option, none, some, List, [], ◌∷◌, if◌then◌else◌,
}
use samba_operator.Api.Meta.{ObjectMeta, NamespacedName}
use samba_operator.Resources.Outcome.{Error, not_found, failed}
use samba_operator.Resources.Kube.{Api, Reply, got, refused}
use samba_operator.Resources.Ensure.{Refuses}

abbrev exists_already : Error → Bool
exists_already e = elim e [ not_found ↦ false | failed text ↦ text == "already exists" ]

module _ {A : Type 0} (meta : A → ObjectMeta) where
  find : NamespacedName → List A → Reply A
  find key [] = refused not_found
  find key (a ∷ objects) =
      let m = meta a in
      if m.namespace == key.namespace && m.name == key.name then got a else find key objects

  insert_new : List A → A → Reply A → List A × Option Error
  insert_new objects a (got b) = (objects, some (failed "already exists"))
  insert_new objects a (refused e) = (a ∷ objects, none)

  store : Api (List A) A
  unfolding find insert_new
  store = record {
    get = (λ objects key. find key objects);
    create = (λ objects a.
        insert_new objects a
          (find (record { namespace = (meta a).namespace; name = (meta a).name }) objects));
    update = (λ objects a. (objects, none));
  }

  refused_unchanged :
      (objects objects' : List A) (a : A) (e : Error) (r : Reply A)
      → insert_new objects a r ≡ (objects', some e)
      → objects' ≡ objects
  unfolding insert_new
  refused_unchanged objects objects' a e (got b) h = cc h
  refused_unchanged objects objects' a e (refused x) h = cc h

  store-Refuses : Refuses exists_already store
  unfolding store
  store-Refuses objects objects' a e h exists = refused_unchanged objects objects' a e _ h
