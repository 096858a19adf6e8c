-- ===== src/Sdk/Svg/Print.antt =====
-- The text of an SVG image (packages/nouns-sdk/src/image/svg-builder.ts): the templates of `buildSVG`,
-- `drawRect`, `drawCircle` and `drawPath`.
use sznouns.Prelude.{
  ℕ, zero, suc, ◌+◌, ◌*◌, ◌/◌, ◌%◌, Option, none, some, List, [], ◌∷◌, ◌++◌, ltb, if◌then◌else◌,
  get_elem?, Text, codes,
}
use sznouns.Sdk.Svg.{Number, Element, rect, circle, path, EncodedImage, draw_part}

abbrev conversion : ℕ
conversion = 10

-- A number in decimal, its digits in front of `acc`, at most as many as the fuel.
decimal_from : ℕ → ℕ → Text → Text
decimal_from zero n acc = acc
decimal_from (suc fuel) n acc =
    let rest = decimal_from fuel (n / 10) ((48 + n % 10) ∷ acc) in
    if ltb n 10 then (48 + n) ∷ acc else rest

unfoldable pub decimal : ℕ → Text
unfolding decimal_from
decimal n = decimal_from (suc n) n []

-- `${v[i]}` of the parameters, each multiplied by `CONVERSION`.
unfoldable pub param : List Number → ℕ → Text
unfolding decimal
param params i = elim (get_elem? params i) [
  | none ↦ codes "undefined"
  | some none ↦ codes "NaN"
  | some (some n) ↦ decimal (n * conversion)
]

abbrev fill_text : Option Text → Text
fill_text none = codes "undefined"
fill_text (some t) = t

unfoldable pub print_element : Element → Text
unfolding param
print_element (rect v fill) =
    codes "<rect width=\""
    ++ (param v 0
        ++ (codes "\" height=\""
            ++ (param v 1
                ++ (codes "\" x=\""
                    ++ (param v 2
                        ++ (codes "\" y=\""
                            ++ (param v 3
                                ++ (codes "\" fill=\"#" ++ (fill_text fill ++ codes "\" />")))))))))
print_element (circle v fill) =
    codes "<circle r=\""
    ++ (param v 0
        ++ (codes "\" cx=\""
            ++ (param v 1
                ++ (codes "\" cy=\""
                    ++ (param v 2
                        ++ (codes "\" fill=\"#"
                            ++ (fill_text fill
                                ++ codes "\" shape-rendering=\"geometricPrecision\"/>")))))))
print_element (path v fill) =
    codes "<path d=\"M"
    ++ (param v 0
        ++ (codes ","
            ++ (param v 1
                ++ (codes " A20,20 0 0 1 "
                    ++ (param v 2
                        ++ (codes ","
                            ++ (param v 3
                                ++ (codes "\" fill=\"#"
                                    ++ (fill_text fill
                                        ++ codes
                                            "\" shape-rendering=\"geometricPrecision\"/>")))))))))

unfoldable pub print_all : List Element → Text
unfolding print_element
print_all [] = []
print_all (e ∷ es) = print_element e ++ print_all es

-- The loop over the parts, which appends to `result`.
build_from : List Text → Text → List EncodedImage → Text
unfolding print_all
build_from colors result [] = result
build_from colors result (part ∷ parts) =
    build_from colors (result ++ print_all (draw_part colors part)) parts

abbrev pub svg_open : Text → Text
svg_open background =
    codes
      "<svg width=\"320\" height=\"320\" viewBox=\"0 0 320 320\" xmlns=\"http://www.w3.org/2000/svg\" shape-rendering=\"crispEdges\"><rect width=\"100%\" height=\"100%\" fill=\"#"
    ++ (background ++ codes "\" />")

unfoldable pub build_svg : List EncodedImage → List Text → Text → Text
unfolding build_from
build_svg parts colors background = build_from colors (svg_open background) parts ++ codes "</svg>"
