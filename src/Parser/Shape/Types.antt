-- ===== src/Parser/Shape/Types.antt =====
-- The shape of the trees of `parse_type_decl` in examples/parser.cpp.
use mathlib.Core.Path.{subst}
use cxb.Prelude.{ℕ, zero, suc, ◌≡◌, refl, sym, ap, ◌∙◌, true, false, arith}
use cxb.Lexer.Tokens.{TokenKind}
use cxb.Ast.{
  AstNode, AstNodeData, UnionKind, Pointer, NodeKind, Kids, ast, null, to, no_kids, kid, head, kids,
  push_kid, set_err, set_kind, set_content, set_statement, len, kind_eq as node_kind_eq,
}
use cxb.Parser.State.{Source, Parse}
use cxb.Parser.Declarations.{
  decl_kind, check_union, parse_default, parse_fields, parse_compound, parse_alias, parse_type_decl,
}
use cxb.Parser.Yields.{
  Yields, Yields-bind, Yields-then, Yields-pure, Yields-give_up, Yields-if, Yields-map, Is,
  add_kid-Is, add_tok_node-Is, add_err-Is, expect-Any, expect_wn-Is, deref-to, peek-Any, next-Any,
  peek_is-Any, consume_if-Any, consume_expect-Any, consume_expect_wn-Is,
}
use cxb.Parser.Shape.{
  Fits, IsTree, IsSound, IsForest, IsOpen, tree, Is-set_last_kid, IsForest-push_kid, Is-IsOpen,
  IsOpen-IsTree, consume_expect_wn-IsOpen, IsTree-Fits,
}
use cxb.Parser.Shape.Literals.{Is-set_content}

Is-set_kind : (k : NodeKind) {ks : Kids} (n : AstNode) → kids n ≡ ks → Is k ks (set_kind k n)
unfolding set_kind head kids
Is-set_kind k (ast h l) e = (refl, e)

is_alias :
    (k : TokenKind)
    → node_kind_eq (decl_kind k).0 NodeKind.typealias_decl ≡ true
    → (decl_kind k).0 ≡ NodeKind.typealias_decl
unfolding decl_kind node_kind_eq cxb.Ast.code
is_alias TokenKind.union_keyword e = cc
is_alias TokenKind.enum_keyword e = cc
is_alias TokenKind.struct_keyword e = cc
is_alias TokenKind.scope_bracket_left e = cc
is_alias _ e = refl

-- A declaration that is no alias may have any number of fields.
decl_kind-Fits :
    (k : TokenKind)
    → node_kind_eq (decl_kind k).0 NodeKind.typealias_decl ≡ false
    → (n : ℕ) → Fits (decl_kind k).0 n
unfolding decl_kind node_kind_eq cxb.Ast.code
decl_kind-Fits TokenKind.union_keyword e n = tt
decl_kind-Fits TokenKind.enum_keyword e n = tt
decl_kind-Fits TokenKind.struct_keyword e n = tt
decl_kind-Fits TokenKind.scope_bracket_left e n = tt
decl_kind-Fits _ e n = cc

check_union-IsForest :
    (ks : Kids) → IsForest ks → Yields (λ l. IsForest l × (len l ≡ len ks)) (check_union ks)
unfolding check_union
check_union-IsForest no_kids f = Yields-pure _ (tt, refl)
check_union-IsForest (kid q ks) (s, f) = Yields-bind (deref-to q) λ k e.
    let t = IsTree-Fits k (subst IsSound e s) in
    Yields-bind
      (Yields-if (node_kind_eq (head k).kind NodeKind.bin_op)
        (λ _. expect_wn-Is (head k).kind (kids k) _ _ k (refl, refl))
        (λ _. Yields-pure k (refl, refl)))
      λ k' s'.
        Yields-bind (check_union-IsForest ks f)
          λ ks' (f', same). Yields-pure _ ((tree _ _ k' s' t, f'), ap suc same)

module _ (src : Source) (expression base : Parse Pointer)
    (expression_sound : Yields IsSound expression) (base_sound : Yields IsSound base) where
  parse_default-IsTree :
      (field : AstNode) (q : Pointer)
      → Is NodeKind.var_decl (kid q no_kids) field
      → IsSound q
      → Yields IsTree (parse_default src expression base field)
  unfolding parse_default push_kid
  parse_default-IsTree field q s h = Yields-bind (peek_is-Any src _) λ has_value _.
      Yields-if has_value
        (λ _. Yields-bind expression_sound λ value v.
          Yields-map (add_kid-Is _ _ field value s) (λ n s'. tree _ _ n s' (refl, (h, (v, tt)))))
        (λ _.
          Yields-map (add_kid-Is _ _ field null s) (λ n s'. tree _ _ n s' (refl, (h, (tt, tt)))))

  parse_fields-IsOpen :
      (k : NodeKind) (n : ℕ) (node : AstNode)
      → IsOpen k node
      → Yields (IsOpen k) (parse_fields src expression base n node)
  unfolding parse_fields push_kid
  parse_fields-IsOpen k zero node o = Yields-give_up
  parse_fields-IsOpen k (suc n) node o = Yields-bind (peek_is-Any src _) λ closed _.
      Yields-if closed (λ _. Yields-pure node o)
        λ _. Yields-bind (next-Any src) λ field_name _. Yields-then (expect-Any field_name _) (
          Yields-bind (consume_expect_wn-IsOpen k node o src _) λ node' o'.
            Yields-bind (add_tok_node-Is _ field_name) λ field s.
              Yields-bind (add_kid-Is k (kids node') node' (to field) (o'.0, refl)) λ with_field u.
                Yields-bind base_sound λ field_type t.
                  Yields-bind (add_kid-Is _ _ field field_type s) λ typed s'.
                    Yields-bind (parse_default-IsTree typed field_type s' t) λ field' t'.
                      let o'' =
                        Is-IsOpen k _ _
                          (Is-set_last_kid k (kids node') with_field (to field) (to field') u)
                          (IsForest-push_kid (kids node') (to field') o'.1 t') in
                      Yields-bind (peek_is-Any src _) λ last _.
                        Yields-bind
                          (Yields-if last (λ _. Yields-pure _ o'')
                            λ _. consume_expect_wn-IsOpen k _ o'' src _)
                          λ node''' o'''. parse_fields-IsOpen k n node''' o''')

  parse_compound-IsOpen :
      (k : NodeKind) (n : ℕ) (node : AstNode)
      → IsOpen k node
      → Yields (IsOpen k) (parse_compound src expression base n node)
  unfolding parse_compound
  parse_compound-IsOpen k n node o = Yields-then (consume_expect-Any src _) (
      Yields-bind (parse_fields-IsOpen k n node o)
        λ node' o'. consume_expect_wn-IsOpen k node' o' src _)

  parse_alias-IsTree :
      (node : AstNode)
      → Is NodeKind.typealias_decl no_kids node
      → Yields IsTree (parse_alias src expression base node)
  unfolding parse_alias push_kid
  parse_alias-IsTree node s = Yields-bind expression_sound λ q h. Yields-bind (deref-to q) λ expr e.
      let t : IsTree expr = subst IsSound e h in
      let (f, g) = IsTree-Fits expr t in
      Yields-if (node_kind_eq (head expr).kind NodeKind.bin_op)
        (λ _. Yields-bind (check_union-IsForest (kids expr) g) λ ks (g', same).
          let union = ast (head expr) ks in
          let t' : IsTree union = (subst (Fits (head expr).kind) (sym same) f, g') in
          let node' = Is-set_content _ _ _ _ (Is-set_kind NodeKind.union_decl node s.1) in
          Yields-map (add_kid-Is _ _ _ (to union) node') (λ n s'. tree _ _ n s' (tt, (t', tt))))
        λ _.
          Yields-if (node_kind_eq (head expr).kind NodeKind.identifier)
            (λ _.
              Yields-map
                (Yields-bind (add_kid-Is _ _ node (to expr) s)
                  λ node' u. consume_expect_wn-Is src _ _ _ node' u)
                (λ n s'. tree _ _ n s' (omega arith, (t, tt))))
            (λ _. Yields-map (add_err-Is _ _ node _ s) (λ n s'. tree _ _ n s' (omega arith, tt)))

  pub parse_type_decl-IsSound : (n : ℕ) → Yields IsSound (parse_type_decl src expression base n)
  unfolding parse_type_decl
  parse_type_decl-IsSound n = Yields-then (consume_expect-Any src _) (
      Yields-bind (next-Any src) λ name _. Yields-then (expect-Any name _) (
        Yields-then (consume_expect-Any src _) (
          Yields-bind (peek-Any src) λ t _.
            let nk = (decl_kind t.kind).0 in
            Yields-then (consume_if-Any src (decl_kind t.kind).1) (
              Yields-bind (add_tok_node-Is nk name) λ node s.
                Yields-bind
                  (Yields-if (node_kind_eq nk NodeKind.typealias_decl)
                    (λ e. parse_alias-IsTree node (s.0 ∙ is_alias t.kind e, s.1))
                    (λ e.
                      Yields-map (parse_compound-IsOpen nk n node (Is-IsOpen _ _ node s tt))
                        (λ m o. IsOpen-IsTree nk m o (decl_kind-Fits t.kind e _))))
                  λ node' t'. Yields-pure (to node') t'))))
