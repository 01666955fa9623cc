-- ===== src/Client/HostGroup/Laws.antt =====
-- What blocking and unblocking a device do to an IP host group.
use ha_sophos_fw.Prelude.{
  ◌≤◌, String, ◌≡◌, refl, sym, ap, ◌∙◌, Bool, true, not, Option, none, some, List, [], ◌∷◌, ◌++◌,
  map, arith, eq_iff, length, keep_if, first_where, contains,
}
use ha_sophos_fw.Text.{strip}
use ha_sophos_fw.Xml.{Element, children, with_children, leaf, branch, has_tag, find, stripped}
use ha_sophos_fw.Xml.Edits.{children-with_children, tag-with_children}
use ha_sophos_fw.Xml.Container.{
  items, fields, insert_container, edit_container, drop_from, drop_from_lem,
}
use ha_sophos_fw.Client.Errors.{ok}
use ha_sophos_fw.Client.HostGroup.{
  host_members, insert_host, block_change, is_entry_of, drop_hosts, remove_hosts, unblock_list,
  unblock_change, disjoint,
}

abbrev pub is_host_list : Element → Bool
is_host_list = has_tag "HostList"

members_eq :
    (e : Element) → host_members e ≡ map stripped (keep_if (has_tag "Host") (items is_host_list e))
unfolding host_members items
members_eq e = ground arith

same_tag : (l : List Element) (e : Element) → is_host_list (with_children l e) ≡ is_host_list e
same_tag l e = rw tag-with_children

contains-map-append :
    (l : List Element) (x : Element) (s : String)
    → has_tag "Host" x ≡ true
    → stripped x ≡ s
    → contains (map stripped (keep_if (has_tag "Host") (l ++ x ∷ []))) s ≡ true
contains-map-append [] x s h e = ground (arith, eq_iff (stripped x) s)
contains-map-append (y ∷ l) x s h e = ground (arith, contains-map-append l x s h e)

-- No member is left of those whose entries were dropped.
disjoint-dropped :
    (hosts : List String) (l : List Element)
    → disjoint hosts
        (map stripped (keep_if (has_tag "Host") (keep_if (λ i. not (is_entry_of hosts i)) l)))
      ≡ true
unfolding is_entry_of
disjoint-dropped hosts [] = refl
disjoint-dropped hosts (x ∷ l) = ground (arith, disjoint-dropped hosts l)

module _ (host : String) (e : Element) where
  abbrev entry : Element
  entry = leaf "Host" host

  insert_host_lem :
      (o : Option Element)
      → first_where is_host_list (children e) ≡ o
      → (items is_host_list (insert_host host o e) ≡ items is_host_list e ++ entry ∷ [])
        × (fields is_host_list (insert_host host o e) ≡ fields is_host_list e)
  unfolding insert_host
  insert_host_lem none h =
      insert_container is_host_list e (branch "HostList" (entry ∷ [])) h refl (has_tag "IPFamily")
  insert_host_lem (some l) h =
      let (now, after, kept) = edit_container is_host_list e l h _ (λ m. same_tag _ m) in
      (after ∙ children-with_children _ l ∙ ap (λ m. m ++ entry ∷ []) (sym now), kept)

  -- Blocking a device, where the group changes, appends one <Host> entry and keeps every entry and every
  -- other field; the host, a name with no space at its ends, then is a member of the group.
  pub block_change_lem :
      (e' : Element) (u : Unit {0})
      → block_change host e ≡ ok (true, e', u)
      → strip host ≡ host
      → (items is_host_list e' ≡ items is_host_list e ++ leaf "Host" host ∷ [])
        × (fields is_host_list e' ≡ fields is_host_list e)
        × (contains (host_members e') host ≡ true)
  block_change_lem e' u h plain =
      let edited : insert_host host (find "HostList" e) e ≡ e' =
        unfold block_change in ground arith in
      let (added, kept) = insert_host_lem (find "HostList" e) (unfold find in refl) in
      let now : items is_host_list e' ≡ items is_host_list e ++ leaf "Host" host ∷ [] =
        rw edited at added in
      (
        now,
        rw edited at kept,
        rw (members_eq, now)
            (contains-map-append (items is_host_list e) entry host refl (unfold stripped in plain)),
      )

module _ (hosts : List String) (e : Element) where
  remove_hosts_lem :
      (l : Element)
      → first_where is_host_list (children e) ≡ some l
      → length (keep_if is_host_list (children e)) ≤ 1
      → (items is_host_list (remove_hosts hosts l e)
          ≡ keep_if (λ i. not (is_entry_of hosts i)) (items is_host_list e))
        × (fields is_host_list (remove_hosts hosts l e) ≡ fields is_host_list e)
  unfolding remove_hosts drop_from
  remove_hosts_lem l h one =
      drop_from_lem is_host_list (is_entry_of hosts) (drop_hosts hosts)
        (λ m. unfold drop_hosts in children-with_children _ m)
        (λ m. unfold drop_hosts in same_tag _ m) e l h one

  unblock_list-ok :
      (o : Option Element) (e' : Element) (removed : List String)
      → unblock_list hosts o e ≡ ok (true, e', removed)
      → (l : Element) × (o ≡ some l)
        × (remove_hosts hosts l e ≡ e')
        × (removed ≡ map stripped (keep_if (is_entry_of hosts) (children l)))
  unfolding unblock_list
  unblock_list-ok none e' removed h = cc
  unblock_list-ok (some l) e' removed h = (l, refl, ground arith, ground arith)

  -- Unblocking a device, where the group changes and has one list at most, removes every <Host> entry of
  -- one of the hosts, and keeps every other entry and every other field; the removed names are those of
  -- the removed entries, in order, and no host is a member of the group any more.
  pub unblock_change_lem :
      (e' : Element) (removed : List String)
      → unblock_change hosts e ≡ ok (true, e', removed)
      → length (keep_if is_host_list (children e)) ≤ 1
      → (items is_host_list e' ≡ keep_if (λ i. not (is_entry_of hosts i)) (items is_host_list e))
        × (fields is_host_list e' ≡ fields is_host_list e)
        × (removed ≡ map stripped (keep_if (is_entry_of hosts) (items is_host_list e)))
        × (disjoint hosts (host_members e') ≡ true)
  unblock_change_lem e' removed h one =
      let edited : unblock_list hosts (find "HostList" e) e ≡ ok (true, e', removed) =
        unfold unblock_change in ground arith in
      let (l, there, same, names) = unblock_list-ok (find "HostList" e) e' removed edited in
      let at : first_where is_host_list (children e) ≡ some l = unfold find in there in
      let (dropped, kept) = remove_hosts_lem l at one in
      let now : items is_host_list e'
          ≡ keep_if (λ i. not (is_entry_of hosts i)) (items is_host_list e) =
        rw same at dropped in
      (
        now,
        rw same at kept,
        names ∙ (unfold items in rw at),
        rw (members_eq, now) (disjoint-dropped hosts (items is_host_list e)),
      )
