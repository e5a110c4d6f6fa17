-- ===== src/Models/RowsLaws.antt =====
-- The rows that the fit functions return fit the schemas and the constructors of the models.
use spark_rapids_ml.Base.{◌≡◌, refl, Bool, true, ◌&&◌, Option, none, some, [], ◌∷◌}
use spark_rapids_ml.Py.{ok}
use spark_rapids_ml.Py.Dict.{Dict, get, has, put}
use spark_rapids_ml.Models.Rows.{
  Attribute, count, number, numbers, matrix, text, Fitted, kmeans_fitted, pca_fitted, linear_fitted,
  regressor_fitted, classifier_fitted, algorithm_of, fit_row, FieldType, double_field,
  integer_field, string_field, double_array, double_matrix, out_fields, construct,
}

module _ {F : Type 0} where
  -- A value has the type of its field.
  abbrev pub HasType : FieldType → Attribute F → Type 0
  HasType double_field (number x) = Unit
  HasType integer_field (count n) = Unit
  HasType string_field (text s) = Unit
  HasType double_array (numbers l) = Unit
  HasType double_matrix (matrix m) = Unit
  HasType _ _ = ⊥

  abbrev pub EntryHasType : FieldType → Option (Attribute F) → Type 0
  EntryHasType t none = ⊥
  EntryHasType t (some v) = HasType t v

  -- The row has every field of the schema, with a value of its type.
  abbrev pub HasFields : Dict FieldType → Dict (Attribute F) → Type 0
  HasFields [] row = Unit
  HasFields ((k, t) ∷ fields) row = EntryHasType t (get row k) × HasFields fields row

  -- The two dicts agree on the fields of the schema.
  abbrev pub SameFields : Dict FieldType → Dict (Attribute F) → Dict (Attribute F) → Type 0
  SameFields [] d e = Unit
  SameFields ((k, t) ∷ fields) d e = (get d k ≡ get e k) × SameFields fields d e

  abbrev pub within : Dict FieldType → Dict (Attribute F) → Bool
  within fields [] = true
  within fields ((k, v) ∷ row) = has fields k && within fields row

-- The row that a fit returns has the columns of the estimator's schema, each with a value of its
-- type, and no others, and the model's constructor accepts it. The model's attributes hold what the
-- row holds, and the constructor makes the same attributes of them again, as loading a saved
-- model does.
pub construct-fit_row :
    {F : Type 0} (f : Fitted F)
    → HasFields (out_fields (algorithm_of f)) (fit_row f)
      × (within (out_fields (algorithm_of f)) (fit_row f) ≡ true)
      × ((attributes : Dict (Attribute F)) × (construct (algorithm_of f) (fit_row f)
            ≡ ok attributes)
          × SameFields (out_fields (algorithm_of f)) attributes (fit_row f)
          × (construct (algorithm_of f) attributes ≡ ok attributes))
unfolding fit_row out_fields construct get put
construct-fit_row (kmeans_fitted centers n_cols dtype) = (
  (tt, (tt, (tt, tt))),
  refl,
  (
    ("cluster_centers_", matrix centers) ∷ ("dtype", text dtype) ∷ ("n_cols", count n_cols) ∷ [],
    refl,
    (refl, (refl, (refl, tt))),
    refl,
  ),
)
construct-fit_row (pca_fitted mean components ratio singular n_cols dtype) = (
  (tt, (tt, (tt, (tt, (tt, (tt, tt)))))),
  refl,
  (
    ("mean_", numbers mean)
        ∷ ("components_", matrix components)
        ∷ ("explained_variance_ratio_", numbers ratio)
        ∷ ("singular_values_", numbers singular)
        ∷ ("dtype", text dtype)
        ∷ ("n_cols", count n_cols)
        ∷ [],
    refl,
    (refl, (refl, (refl, (refl, (refl, (refl, tt)))))),
    refl,
  ),
)
construct-fit_row (linear_fitted coef intercept n_cols dtype) = (
  (tt, (tt, (tt, (tt, tt)))),
  refl,
  (
    ("coef_", numbers coef)
        ∷ ("intercept_", number intercept)
        ∷ ("dtype", text dtype)
        ∷ ("n_cols", count n_cols)
        ∷ [],
    refl,
    (refl, (refl, (refl, (refl, tt)))),
    refl,
  ),
)
construct-fit_row (regressor_fitted model n_cols dtype) = (
  (tt, (tt, (tt, tt))),
  refl,
  (
    ("treelite_model", text model) ∷ ("dtype", text dtype) ∷ ("n_cols", count n_cols) ∷ [],
    refl,
    (refl, (refl, (refl, tt))),
    refl,
  ),
)
construct-fit_row (classifier_fitted model num_classes n_cols dtype) = (
  (tt, (tt, (tt, (tt, tt)))),
  refl,
  (
    ("treelite_model", text model)
        ∷ ("num_classes", count num_classes)
        ∷ ("dtype", text dtype)
        ∷ ("n_cols", count n_cols)
        ∷ [],
    refl,
    (refl, (refl, (refl, (refl, tt)))),
    refl,
  ),
)
