-- ===== src/CompatConfig/Render/References.antt =====
-- The tags that a client's configuration refers to (crates/compat-config/src/render.rs).
pub mod Members
use mathlib.Core.List.{Memᴰ}
use mathlib.Core.List.Memᴰ.{not-nil}
use mathlib.Core.List.{append-nil}
use vpn.Prelude.{
  ◌≡◌, inl, inr, refl, ap, ◌∙◌, String, string_Eq, Bool, true, false, if◌then◌else◌, List, [], ◌∷◌,
  ◌++◌, map, append_assoc, ok-injective, Option, none, some, ok, Option-cases, Bool-cases, arith,
  subst, sym,
}
use vpn.CompatConfig.Model.{
  CompatUser, CompatEndpoint, CompatTransport, vless_reality, hysteria2, PublicParameters, reality,
  hysteria2_parameters,
}
use vpn.CompatConfig.Server.Json.{Value, str, array, object, get, elements, elements-array}
use vpn.CompatConfig.Server.Reading.{elements_at, listed}
use vpn.CompatConfig.Render.{
  SelectionProfile, reliability, performance, auto, labels, is_transport, first_tag, first_label,
  or_else, unwrap_or, default_tag, vless_outbound, hysteria_outbound, with_client_obfs,
  outbound_with, outbound, urltest_group, selector, client_document,
  render_singbox_client_subscription_with_profile,
}
use vpn.CompatConfig.Render.References.Members.{
  AllIn, AllIn-append, AllIn-prefix, AllIn-mem, Memᴰ-right, default_tag-mem,
}

-- the text of a field, as a list of at most one
text_of : Option Value → List String
text_of (some (str s)) = s ∷ []
text_of _ = []

texts : List Value → List String
unfolding text_of
texts [] = []
texts (v ∷ vs) = text_of (some v) ++ texts vs

tags_of : List Value → List String
unfolding text_of
tags_of [] = []
tags_of (v ∷ vs) = text_of (get "tag" v) ++ tags_of vs

-- the members of a group, and what it starts with
group_refs : Value → List String
unfolding texts elements_at
group_refs v = texts (elements_at "outbounds" v) ++ text_of (get "default" v)

refs_of : List Value → List String
unfolding group_refs
refs_of [] = []
refs_of (v ∷ vs) = group_refs v ++ refs_of vs

final_of : Option Value → List String
unfolding text_of
final_of (some v) = text_of (get "final" v)
final_of none = []

-- the tags of the outbounds of a configuration
unfoldable pub tags : Value → List String
unfolding tags_of elements_at
tags doc = tags_of (elements_at "outbounds" doc)

-- the tags that its groups and its route refer to
unfoldable pub references : Value → List String
unfolding refs_of final_of elements_at
references doc = refs_of (elements_at "outbounds" doc) ++ final_of (get "route" doc)

-- an endpoint's outbound has its label as its tag, and is no group
outbound_fields :
    (u : CompatUser) (ep : CompatEndpoint) (p : PublicParameters)
    → let v = outbound_with u ep p in (text_of (get "tag" v) ≡ ep.label ∷ []) × (group_refs v ≡ [])
unfolding outbound_with group_refs text_of texts elements_at listed
outbound_fields u ep (reality k s f) = (refl, refl)
outbound_fields u ep (hysteria2_parameters none) = (refl, refl)
outbound_fields u ep (hysteria2_parameters (some pw)) = (refl, refl)

tags_of-outbounds :
    (u : CompatUser) (eps : List CompatEndpoint) (vs : List Value)
    → tags_of (map (outbound u) eps ++ vs) ≡ labels eps ++ tags_of vs
unfolding tags_of outbound
tags_of-outbounds u [] vs = refl
tags_of-outbounds u (ep ∷ eps) vs =
    let (tag, _) = outbound_fields u ep ep.public_parameters in
    ap (λ t. t ++ tags_of (map (outbound u) eps ++ vs)) tag
    ∙ ap (λ ts. ep.label ∷ ts) (tags_of-outbounds u eps vs)

refs_of-outbounds :
    (u : CompatUser) (eps : List CompatEndpoint) (vs : List Value)
    → refs_of (map (outbound u) eps ++ vs) ≡ refs_of vs
unfolding refs_of outbound
refs_of-outbounds u [] vs = refl
refs_of-outbounds u (ep ∷ eps) vs =
    let (_, none_there) = outbound_fields u ep ep.public_parameters in
    ap (λ t. t ++ refs_of (map (outbound u) eps ++ vs)) none_there ∙ refs_of-outbounds u eps vs

texts-map : (ss : List String) → texts (map str ss) ≡ ss
unfolding texts text_of
texts-map [] = refl
texts-map (s ∷ ss) = ap (λ r. s ∷ r) (texts-map ss)

module _ (u : CompatUser) (eps : List CompatEndpoint) (profile : SelectionProfile) where
  abbrev groups : List Value
  groups =
      urltest_group eps
      ∷ selector profile eps
      ∷ object (("type", str "direct") ∷ ("tag", str "direct") ∷ [])
      ∷ []

  tags-document :
      tags (client_document u eps profile) ≡ labels eps ++ "auto" ∷ "select" ∷ "direct" ∷ []
  unfolding tags client_document elements_at tags_of text_of urltest_group selector listed
  tags-document =
      ap tags_of (elements-array (map (outbound u) eps ++ groups)) ∙ tags_of-outbounds u eps groups

  group_refs-urltest : group_refs (urltest_group eps) ≡ labels eps
  unfolding group_refs urltest_group elements_at text_of
  group_refs-urltest =
      append-nil (texts (elements (array (map str (labels eps)))))
      ∙ ap texts (elements-array (map str (labels eps)))
      ∙ texts-map (labels eps)

  group_refs-selector :
      group_refs (selector profile eps)
      ≡ (labels eps ++ "auto" ∷ []) ++ default_tag profile eps ∷ []
  unfolding group_refs selector elements_at text_of
  group_refs-selector =
      let options = labels eps ++ "auto" ∷ [] in
      ap (λ ts. ts ++ default_tag profile eps ∷ [])
        (ap texts (elements-array (map str options)) ∙ texts-map options)

  references-document :
      references (client_document u eps profile)
      ≡ (labels eps ++ (((labels eps ++ "auto" ∷ []) ++ default_tag profile eps ∷ []) ++ []))
        ++ "select" ∷ []
  unfolding references client_document elements_at refs_of text_of listed final_of group_refs texts
  references-document =
      ap (λ r. r ++ "select" ∷ [])
        (ap refs_of (elements-array (map (outbound u) eps ++ groups))
          ∙ refs_of-outbounds u eps groups
          ∙ ap (λ r. r ++ (group_refs (selector profile eps) ++ [])) group_refs-urltest
          ∙ ap (λ r. labels eps ++ (r ++ [])) group_refs-selector)

  -- Every tag that the configuration of a client refers to is that of one of its outbounds: the members
  -- of its two groups, what the selector starts with, and the final route, whatever endpoints there
  -- are and whatever profile is asked for.
  pub references_resolve :
      (doc : Value)
      → render_singbox_client_subscription_with_profile u eps profile ≡ ok doc
      → AllIn (references doc) (tags doc)
  unfolding render_singbox_client_subscription_with_profile
  references_resolve doc e =
      let made : client_document u eps profile ≡ doc = ok-injective e in
      let ts = labels eps ++ "auto" ∷ "select" ∷ "direct" ∷ [] in
      let known = AllIn-prefix (labels eps) ("auto" ∷ "select" ∷ "direct" ∷ []) in
      let auto_there : Memᴰ "auto" ts =
        Memᴰ-right "auto" (labels eps) ("auto" ∷ "select" ∷ "direct" ∷ []) (Memᴰ.head refl) in
      let select_there : Memᴰ "select" ts =
        Memᴰ-right "select" (labels eps) ("auto" ∷ "select" ∷ "direct" ∷ [])
          (Memᴰ.tail (Memᴰ.head refl)) in
      let options = AllIn-append (labels eps) ("auto" ∷ []) ts known (auto_there, tt) in
      let default_there =
        AllIn-mem (labels eps ++ "auto" ∷ []) ts (default_tag profile eps) options
          (default_tag-mem profile eps) in
      let selected =
        AllIn-append (labels eps ++ "auto" ∷ []) (default_tag profile eps ∷ []) ts options
          (default_there, tt) in
      let groups_known =
        AllIn-append (labels eps)
          (((labels eps ++ "auto" ∷ []) ++ default_tag profile eps ∷ []) ++ []) ts known
          (AllIn-append ((labels eps ++ "auto" ∷ []) ++ default_tag profile eps ∷ []) [] ts selected
            tt) in
      let all_known =
        AllIn-append
          (labels eps ++ (((labels eps ++ "auto" ∷ []) ++ default_tag profile eps ∷ []) ++ []))
          ("select" ∷ []) ts groups_known (select_there, tt) in
      subst (λ d. AllIn (references d) (tags d)) made
        (rw (references-document, tags-document) all_known)
