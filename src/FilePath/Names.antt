-- ===== src/FilePath/Names.antt =====
-- A path that follows the names of the open folders, as a parser keeps it: it is "" or "." where no
-- folder is open.
use preprocessing_sfa.Prelude.{
  String, true, false, ◌⊎◌, inl, inr, List, [], ◌∷◌, ◌++◌, ◌≡◌, refl, ap, ◌∙◌, arith,
}
use preprocessing_sfa.Prelude.Text.{◌+s◌, join_with, split_slash}
use preprocessing_sfa.Prelude.Lists.{all}
use preprocessing_sfa.Prelude.Slashes.{has_slash, split_slash-first, split_slash-whole}
use preprocessing_sfa.FilePath.{
  clean_step, clean_from, is_rooted, components, clean, join, up_to_last_slash, dir,
}
use preprocessing_sfa.FilePath.Plain.{
  is_plain, are_parts, split_slash-join_with, clean-lem, clean-join_with, is_rooted-lem, join-names,
}

-- The path stands for the names.
abbrev pub Follows : List String → String → Type 0
Follows [] path = (path ≡ "") ⊎ (path ≡ ".")
Follows (p ∷ ps) path = path ≡ join_with "/" (p ∷ ps)

join-empty : (n : String) → is_plain n ≡ true → join ("" ∷ n ∷ []) ≡ n
unfolding join join_with
join-empty n h = grind (arith, clean-join_with n [] (grind arith))

components-dot : (n : String) → is_plain n ≡ true → clean_from false [] ("." ∷ n ∷ []) ≡ n ∷ []
unfolding clean_from clean_step
components-dot n h = grind arith

clean-dot : (n : String) → is_plain n ≡ true → clean ("." +s "/" +s n) ≡ n
unfolding clean components join_with has_slash
clean-dot n h =
    let split =
      split_slash-first "." n refl ∙ ap (λ l. "." ∷ l) (split_slash-whole n (grind arith)) in
    let unrooted = is_rooted-lem ("." +s "/" +s n) "." (n ∷ []) split refl in
    let parts = ap (λ l. clean_from false [] l) split ∙ components-dot n h in
    grind (arith, unrooted, parts)

join-dot : (n : String) → is_plain n ≡ true → join ("." ∷ n ∷ []) ≡ n
unfolding join join_with
join-dot n h = clean-dot n h

pub join-Follows :
    (ns : List String) (path n : String)
    → Follows ns path
    → all is_plain ns ≡ true
    → is_plain n ≡ true
    → join (path ∷ n ∷ []) ≡ join_with "/" (ns ++ n ∷ [])
unfolding join_with
join-Follows [] path n (inl e) h k = ap (λ t. join (t ∷ n ∷ [])) e ∙ join-empty n k
join-Follows [] path n (inr e) h k = ap (λ t. join (t ∷ n ∷ [])) e ∙ join-dot n k
join-Follows (p ∷ ps) path n e h k = ap (λ t. join (t ∷ n ∷ [])) e ∙ join-names p ps n h k

-- The last name is taken off, and its slash is kept.
up_to_last_slash-last :
    (p : String) (ps : List String) (n : String)
    → up_to_last_slash ((p ∷ ps) ++ n ∷ []) ≡ join_with "/" ((p ∷ ps) ++ "" ∷ [])
unfolding up_to_last_slash join_with
up_to_last_slash-last p [] n = refl
up_to_last_slash-last p (q ∷ ps) n = ap (λ t. p +s "/" +s t) (up_to_last_slash-last q ps n)

are_parts-last :
    (ns : List String) (n : String)
    → all is_plain ns ≡ true
    → has_slash n ≡ false
    → are_parts (ns ++ n ∷ []) ≡ true
are_parts-last [] n h k = grind arith
are_parts-last (m ∷ ns) n h k = grind (arith, are_parts-last ns n)

dir-names :
    (p : String) (ps : List String) (n : String)
    → all is_plain (p ∷ ps) ≡ true
    → is_plain n ≡ true
    → dir (join_with "/" ((p ∷ ps) ++ n ∷ [])) ≡ join_with "/" (p ∷ ps)
unfolding dir clean_from clean_step has_slash
dir-names p ps n h k =
    ap (λ l. clean (up_to_last_slash l))
      (split_slash-join_with p (ps ++ n ∷ []) (are_parts-last (p ∷ ps) n h (grind arith)))
    ∙ ap clean (up_to_last_slash-last p ps n)
    ∙ clean-lem (join_with "/" ((p ∷ ps) ++ "" ∷ [])) p ps ("" ∷ [])
        (split_slash-join_with p (ps ++ "" ∷ []) (are_parts-last (p ∷ ps) "" h refl))
        (λ stack. refl) h

dir-name : (n : String) → is_plain n ≡ true → dir n ≡ "."
unfolding dir clean components clean_from clean_step up_to_last_slash split_slash is_rooted
    join_with
dir-name n h = ap (λ l. clean (up_to_last_slash l)) (split_slash-whole n (grind arith))

pub dir-Follows :
    (ns : List String) (n : String)
    → all is_plain ns ≡ true
    → is_plain n ≡ true
    → Follows ns (dir (join_with "/" (ns ++ n ∷ [])))
unfolding join_with
dir-Follows [] n h k = inr (dir-name n k)
dir-Follows (p ∷ ps) n h k = dir-names p ps n h k
