-- ===== src/Client/UrlGroup/Laws.antt =====
-- What blocking and unblocking a site do to a URL group, as `change` and `verify` see it.
use ha_sophos_fw.Prelude.{
  ◌≤◌, String, ◌≡◌, refl, sym, ap, ◌∙◌, ◌↔◌, Bool, true, false, not, Option, none, some, List, [],
  ◌∷◌, ◌++◌, arith, eq_refl, length, is_nil, keep_if, first_where,
}
use ha_sophos_fw.Text.{strip, lower}
use ha_sophos_fw.Text.Lower.{lower-strip_idem}
use ha_sophos_fw.Xml.{Element, children, with_children, leaf, branch, child_ci, stripped}
use ha_sophos_fw.Xml.Edits.{children-with_children, tag-with_children, keep_if-append, keep_if-not}
use ha_sophos_fw.Xml.Container.{
  items, fields, append_container, edit_container, drop_from, drop_from_lem,
}
use ha_sophos_fw.Client.Errors.{ok}
use ha_sophos_fw.Client.UrlGroup.{
  is_entry, is_url_list, urls, add_entry, drop_entries, insert_url, remove_url, is_editable,
  url_change, url_verify,
}

urls-eq :
    (wanted : String) (e : Element)
    → urls wanted e ≡ keep_if (is_entry wanted) (items is_url_list e)
unfolding urls items is_url_list
urls-eq wanted e = ground arith

same_list : (l : List Element) (e : Element) → is_url_list (with_children l e) ≡ is_url_list e
unfolding is_url_list
same_list l e = rw tag-with_children

-- The new entry is one that `urls` finds.
new_entry : (url : String) → is_entry (lower (strip url)) (leaf "URL" (lower (strip url))) ≡ true
unfolding is_entry stripped lower
new_entry url = rw (lower-strip_idem url) (eq_refl (lower (strip url)))

is_list-branch : (cs : List Element) → is_url_list (branch "URLlist" cs) ≡ true
unfolding is_url_list lower
is_list-branch cs = refl

not-nil {ℓ} : {A : Type ℓ} (l : List A) (x : A) → not (is_nil (l ++ x ∷ [])) ≡ true
not-nil [] x = refl
not-nil (y ∷ l) x = refl

module _ (url : String) (e : Element) where
  abbrev wanted : String
  wanted = lower (strip url)

  abbrev new_url : Element
  new_url = leaf "URL" wanted

  verify_added :
      (e' : Element) (l : List Element)
      → items is_url_list e' ≡ l ++ new_url ∷ []
      → url_verify wanted true e' ≡ true
  unfolding url_verify
  verify_added e' l h =
      rw (urls-eq, h, keep_if-append, new_entry url) (not-nil (keep_if (is_entry wanted) l) new_url)

  verify_dropped :
      (e' : Element) (l : List Element)
      → items is_url_list e' ≡ keep_if (λ i. not (is_entry wanted i)) l
      → url_verify wanted false e' ≡ true
  unfolding url_verify
  verify_dropped e' l h = rw (urls-eq, h, keep_if-not)

  insert_url_lem :
      (o : Option Element)
      → first_where is_url_list (children e) ≡ o
      → (items is_url_list (insert_url wanted o e) ≡ items is_url_list e ++ new_url ∷ [])
        × (fields is_url_list (insert_url wanted o e) ≡ fields is_url_list e)
  unfolding insert_url add_entry
  insert_url_lem none h =
      append_container is_url_list e (branch "URLlist" (new_url ∷ [])) h
        (is_list-branch (new_url ∷ []))
  insert_url_lem (some l) h =
      let (now, after, kept) =
        edit_container is_url_list e l h (add_entry wanted) (λ m. same_list _ m) in
      (after ∙ children-with_children _ l ∙ ap (λ m. m ++ new_url ∷ []) (sym now), kept)

  remove_url_lem :
      (o : Option Element)
      → first_where is_url_list (children e) ≡ o
      → length (keep_if is_url_list (children e)) ≤ 1
      → (items is_url_list (remove_url wanted o e)
          ≡ keep_if (λ i. not (is_entry wanted i)) (items is_url_list e))
        × (fields is_url_list (remove_url wanted o e) ≡ fields is_url_list e)
  unfolding remove_url drop_from
  remove_url_lem none h one = (unfold items in rw h, refl)
  remove_url_lem (some l) h one =
      drop_from_lem is_url_list (is_entry wanted) (drop_entries wanted)
        (λ m. unfold drop_entries in children-with_children _ m)
        (λ m. unfold drop_entries in same_list _ m) e l h one

  -- Blocking a site, where the group changes, appends one entry for it to the group's list and keeps
  -- every entry and every other field; the check after the write passes on the edited group.
  pub url_change_block :
      (e' : Element) (b : Bool)
      → url_change wanted true e ≡ ok (true, e', b)
      → (items is_url_list e' ≡ items is_url_list e ++ leaf "URL" wanted ∷ [])
        × (fields is_url_list e' ≡ fields is_url_list e)
        × (url_verify wanted true e' ≡ true)
  url_change_block e' b h =
      let edited : insert_url wanted (child_ci "URLlist" e) e ≡ e' =
        unfold url_change in ground arith in
      let (added, kept) =
        insert_url_lem (child_ci "URLlist" e) (unfold child_ci is_url_list in refl) in
      let now : items is_url_list e' ≡ items is_url_list e ++ leaf "URL" wanted ∷ [] =
        rw edited at added in
      (now, rw edited at kept, verify_added e' (items is_url_list e) now)

  -- Unblocking a site, where the group changes and has one list at most, removes every entry for the
  -- site, and keeps every other entry and every other field; the check after the write passes.
  pub url_change_unblock :
      (e' : Element) (b : Bool)
      → url_change wanted false e ≡ ok (true, e', b)
      → length (keep_if is_url_list (children e)) ≤ 1
      → (items is_url_list e' ≡ keep_if (λ i. not (is_entry wanted i)) (items is_url_list e))
        × (fields is_url_list e' ≡ fields is_url_list e)
        × (url_verify wanted false e' ≡ true)
  url_change_unblock e' b h one =
      let edited : remove_url wanted (child_ci "URLlist" e) e ≡ e' =
        unfold url_change in ground arith in
      let (dropped, kept) =
        remove_url_lem (child_ci "URLlist" e) (unfold child_ci is_url_list in refl) one in
      let now : items is_url_list e'
          ≡ keep_if (λ i. not (is_entry wanted i)) (items is_url_list e) =
        rw edited at dropped in
      (now, rw edited at kept, verify_dropped e' (items is_url_list e) now)

  -- Nothing is written exactly when the group, editable, already is as wanted; it is then left alone,
  -- and the caller is told that nothing changed.
  pub url_change_unchanged :
      (present : Bool) (e' : Element) (b : Bool)
      → url_change wanted present e ≡ ok (false, e', b)
        ↔ ((is_editable e ≡ true) × (url_verify wanted present e ≡ true) × (e' ≡ e) × (b ≡ false))
  unfolding url_change url_verify
  url_change_unchanged true e' b = (λ h. ground arith, λ h. ground arith)
  url_change_unchanged false e' b = (λ h. ground arith, λ h. ground arith)
