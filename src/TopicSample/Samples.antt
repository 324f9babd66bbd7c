-- ===== src/TopicSample/Samples.antt =====
-- A message with a point cloud.
use my_ad.Prelude.{◌≤◌, none}
use my_ad.TopicSample.Summary.{
  Message, text, buffer, sequence, message, done, member, empty, element, summarize,
}
use my_ad.TopicSample.Depth.{height, summarize-height}

abbrev point : Message
point = message "Point" none (member "name" (text "p") done)

abbrev cloud : Message
cloud =
    message "Cloud" none
      (member "data" (buffer 12) (member "points" (sequence (element point empty)) done))

summarize-height_example : height (summarize cloud "" 0) ≤ 6
summarize-height_example = summarize-height cloud ""
