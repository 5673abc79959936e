-- ===== src/Builders/Storage.antt =====
-- internal/builders/storage.go: the ACK Role and Bucket of a claim with storage, and the identity of
-- its pods.
mod Settings
mod Policy
use Prim.Native.String
use paved.Base.{
  ℕ, String, Bool, true, false, not, ◌&&◌, ◌||◌, List, [], ◌∷◌, ◌++◌, Option, none, some, map,
  plain, Error, concat, codes, leb, nat_eq, if◌then◌else◌, ◌==◌, Json, json_array, json_object,
  json_texts,
}
use text.Mathlib.Text.{starts_with}
use paved.Api.{ServiceClaim}
use paved.Runtime.{Runtime}
use paved.Builders.Objects.{
  ObjectMeta, Object, role_body, bucket_body, PodSpec, Container, VolumeMount, EnvVar, Kind,
}
use paved.Builders.Names.{label_claim, label_claim_namespace, namespace_name, labels}
pub use paved.Builders.Storage.Settings.{iam_arn_prefix, StorageConfig, validate, linked}
unfoldable pub use paved.Builders.Storage.Settings.{has_storage}
use paved.Builders.Storage.Policy.{PolicyStatement, policy_json}

abbrev storage_prefix : String
storage_prefix = "paved-"

abbrev pub storage_role_path : String
storage_role_path = "/paved/workloads/"

abbrev pub aws_token_audience : String
aws_token_audience = "sts.amazonaws.com"

abbrev aws_token_volume : String
aws_token_volume = "aws-token"

abbrev aws_token_dir : String
aws_token_dir = "/var/run/secrets/paved.dev/aws"

abbrev adoption_policy : String
adoption_policy = "services.k8s.aws/adoption-policy"

abbrev pub deletion_policy : String
deletion_policy = "services.k8s.aws/deletion-policy"

abbrev us_east_1 : String
us_east_1 = "us-east-1"

unfoldable pub storage_role_name : ServiceClaim → String
storage_role_name sc = concat (storage_prefix ∷ sc.name ∷ [])

unfoldable pub storage_role_arn : ServiceClaim → StorageConfig → String
storage_role_arn sc storage =
    concat (
      iam_arn_prefix ∷ storage.account_id ∷ ":role" ∷ storage_role_path ∷ storage_role_name sc ∷ [])

unfoldable pub service_account_subject : ServiceClaim → String
service_account_subject sc =
    concat ("system:serviceaccount:" ∷ namespace_name sc ∷ ":" ∷ sc.name ∷ [])

unfoldable pub storage_tags : ServiceClaim → List (String × String)
storage_tags sc = (label_claim, sc.name) ∷ (label_claim_namespace, sc.namespace) ∷ []

unfoldable pub new_storage_meta : ServiceClaim → List (String × String) → ObjectMeta
new_storage_meta sc annotations = record {
  name = sc.name;
  namespace = namespace_name sc;
  labels = labels sc;
  annotations = annotations;
}

-- Only a token that the cluster's issuer signed for AWS STS and for the claim's service account.
unfoldable pub trust_statement : ServiceClaim → StorageConfig → PolicyStatement
trust_statement sc storage = record {
  effect = "Allow";
  principal =
      (
        "Federated",
        concat (iam_arn_prefix ∷ storage.account_id ∷ ":oidc-provider/" ∷ storage.issuer ∷ []),
      )
      ∷ [];
  action = "sts:AssumeRoleWithWebIdentity" ∷ [];
  resource = [];
  condition =
      (
        "StringEquals",
        (concat (storage.issuer ∷ ":aud" ∷ []), aws_token_audience)
            ∷ (concat (storage.issuer ∷ ":sub" ∷ []), service_account_subject sc)
            ∷ [],
      )
      ∷ [];
}

unfoldable pub access_statements : String → List PolicyStatement
access_statements bucket_arn =
    record {
      effect = "Allow";
      principal = [];
      action = "s3:GetBucketLocation" ∷ "s3:ListBucket" ∷ [];
      resource = bucket_arn ∷ [];
      condition = [];
    }
    ∷ record {
      effect = "Allow";
      principal = [];
      action = "s3:DeleteObject" ∷ "s3:GetObject" ∷ "s3:PutObject" ∷ [];
      resource = concat (bucket_arn ∷ "/*" ∷ []) ∷ [];
      condition = [];
    }
    ∷ []

unfoldable pub with_env : List EnvVar → VolumeMount → List Container → List Container
with_env env mount [] = []
with_env env mount (c ∷ cs) =
    record c { volume_mounts = c.volume_mounts ++ mount ∷ []; env = c.env ++ env }
    ∷ with_env env mount cs

module _ (go : Runtime) where
  open go use {sha256_hex, marshal}

  unfoldable pub storage_bucket_name : ServiceClaim → StorageConfig → String
  storage_bucket_name sc storage = concat (
      storage_prefix
      ∷ sc.name
      ∷ "-"
      ∷ String.slice
          (sha256_hex (
            concat (
              storage.account_id ∷ "/" ∷ storage.region ∷ "/" ∷ sc.namespace ∷ "/" ∷ sc.name ∷ [])))
          0 8
      ∷ [])

  -- Encoding these documents cannot fail, so there is no error.
  unfoldable pub build_storage_role : ServiceClaim → StorageConfig → Object
  unfolding storage_tags new_storage_meta
  build_storage_role sc storage =
      let bucket_arn = concat ("arn:aws:s3:::" ∷ storage_bucket_name sc storage ∷ []) in
      record {
        meta = new_storage_meta sc ((adoption_policy, "adopt-or-create") ∷ []);
        body = role_body (record {
          name = storage_role_name sc;
          path = storage_role_path;
          description = concat (
              "Storage access for ServiceClaim " ∷ sc.namespace ∷ "/" ∷ sc.name
              ∷ ", managed by paved" ∷ []);
          assume_role_policy_document = marshal (policy_json (trust_statement sc storage ∷ []));
          inline_policies =
              ("bucket-access", marshal (policy_json (access_statements bucket_arn))) ∷ [];
          permissions_boundary = storage.permissions_boundary_arn;
          max_session_duration = 3600;
          tags = storage_tags sc;
        });
      }

  unfoldable pub build_storage_bucket : ServiceClaim → StorageConfig → Object
  unfolding storage_tags new_storage_meta
  build_storage_bucket sc storage = record {
    meta =
        new_storage_meta sc
          ((adoption_policy, "adopt-or-create") ∷ (deletion_policy, "retain") ∷ []);
    body = bucket_body (record {
      name = storage_bucket_name sc storage;
      block_public_acls = true;
      block_public_policy = true;
      ignore_public_acls = true;
      restrict_public_buckets = true;
      tag_set = storage_tags sc;
      location_constraint = if storage.region == us_east_1 then none else some storage.region;
    });
  }

  unfoldable pub with_storage_identity : ServiceClaim → StorageConfig → PodSpec → PodSpec
  unfolding with_env
  with_storage_identity sc storage spec = record spec {
    volumes =
        spec.volumes
        ++ record {
          name = aws_token_volume;
          audience = aws_token_audience;
          expiration_seconds = 3600;
          path = "token";
        }
          ∷ [];
    containers =
        with_env
          (record { name = "AWS_ROLE_ARN"; value = storage_role_arn sc storage }
            ∷ record {
              name = "AWS_WEB_IDENTITY_TOKEN_FILE";
              value = concat (aws_token_dir ∷ "/token" ∷ []);
            }
            ∷ record { name = "AWS_REGION"; value = storage.region }
            ∷ record { name = "AWS_DEFAULT_REGION"; value = storage.region }
            ∷ record { name = "PAVED_STORAGE_BUCKET"; value = storage_bucket_name sc storage }
            ∷ [])
          (record { name = aws_token_volume; mount_path = aws_token_dir; read_only = true })
          spec.containers;
  }

-- The kinds of newUnstructured(RoleGVK) and newUnstructured(BucketGVK).
abbrev pub storage_types : List Kind
storage_types = Kind.role ∷ Kind.bucket ∷ []
