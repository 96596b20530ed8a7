-- ===== src/Activities.antt =====
-- internal/activities: the activities that check a package.
pub mod ValidateStructure
-- This one compares the package with its manifest.
pub mod VerifyManifest
-- This one writes the identifiers of the restructured package.
pub mod WriteIdentifierFile
-- These two rearrange the package.
pub mod TransformSip
pub mod Unbag
-- These write the PREMIS file.
pub mod AddPremis
pub mod AddPremisValidation
